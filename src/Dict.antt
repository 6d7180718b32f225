-- ===== src/Dict.antt =====
-- The built-in `Map` of JavaScript with string keys: entries in order of insertion, where a `set`
-- on a present key keeps its place.
pub mod Laws
pub mod Values
use repo_mentor.Prelude.{
  Bool, List, Option, String, [], if◌then◌else◌, is_some, length, map, nat_eq, none, option_eq,
  some, string_eq, ℕ, ◌==◌, ◌∷◌,
}

abbrev pub Dict {ℓ} : Type ℓ → Type ℓ
Dict V = List (String × V)

module _ {ℓ} {V : Type ℓ} where
  unfoldable pub get : String → Dict V → Option V
  get k [] = none
  get k ((j, v) ∷ m) = if j == k then some v else get k m

  unfoldable pub set : String → V → Dict V → Dict V
  set k v [] = (k, v) ∷ []
  set k v ((j, w) ∷ m) = let rest = set k v m in if j == k then (j, v) ∷ m else (j, w) ∷ rest

  unfoldable pub delete : String → Dict V → Dict V
  delete k [] = []
  delete k ((j, v) ∷ m) = let rest = delete k m in if j == k then rest else (j, v) ∷ rest

  unfoldable pub has : String → Dict V → Bool
  unfolding get
  has k m = is_some (get k m)

  abbrev pub values : Dict V → List V
  values = map (λ (e : String × V). e.1)

  abbrev pub size : Dict V → ℕ
  size = length
