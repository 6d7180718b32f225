-- ===== src/Dict/Laws.antt =====
-- What a `Map` gives back after a write.
use mathlib.Core.Path.{sym}
use repo_mentor.Prelude.{
  Bool-cases, String, [], arith, beq_refl, eq_of_beq, false, if◌then◌else◌, inl, inr, nat_eq, none,
  option_eq, refl, some, string_eq, ◌==◌, ◌∷◌, ◌≡◌,
}
use repo_mentor.Dict.{Dict, get, set, delete}

module _ {ℓ} {V : Type ℓ} where
  pub get-set :
      (k j : String) (v : V) (m : Dict V) → get j (set k v m) ≡ (if k == j then some v else get j m)
  unfolding get set
  get-set k j v [] = refl
  get-set k j v ((i, w) ∷ m) =
      ground (
        arith,
        string_eq.beq_iff k j,
        string_eq.beq_iff i k,
        string_eq.beq_iff i j,
        get-set k j v m,
      )

  pub get-delete :
      (k j : String) (m : Dict V) → get j (delete k m) ≡ (if k == j then none else get j m)
  unfolding get delete
  get-delete k j [] = ground arith
  get-delete k j ((i, w) ∷ m) =
      ground (
        arith,
        string_eq.beq_iff k j,
        string_eq.beq_iff i k,
        string_eq.beq_iff i j,
        get-delete k j m,
      )

  pub get-set_self : (k : String) (v : V) (m : Dict V) → get k (set k v m) ≡ some v
  get-set_self k v m = simp (get-set, beq_refl)

  pub get-set_ne :
      (k j : String) (v : V) (m : Dict V) → (k == j) ≡ false → get j (set k v m) ≡ get j m
  get-set_ne k j v m h = rw (get-set, h) refl

  -- Writing back what is stored changes no lookup.
  pub get-set_stored :
      (k j : String) (v : V) (m : Dict V) → get k m ≡ some v → get j (set k v m) ≡ get j m
  get-set_stored k j v m stored = elim (Bool-cases (k == j)) [
    | inl here ↦ rw (get-set, here) (rw (← eq_of_beq k j here) (sym stored))
    | inr other ↦ get-set_ne k j v m other
  ]

  -- Deleting a new entry changes no lookup.
  pub get-delete-set :
      (k j : String) (v : V) (m : Dict V) → get k m ≡ none → get j (delete k (set k v m)) ≡ get j m
  get-delete-set k j v m absent = elim (Bool-cases (k == j)) [
    | inl here ↦ rw (get-delete, here) (rw (← eq_of_beq k j here) (sym absent))
    | inr other ↦ rw (get-delete, other) (get-set_ne k j v m other)
  ]

pub ruleset dict_laws = (get-set, get-delete, get-set_self)
