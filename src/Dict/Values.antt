-- ===== src/Dict/Values.antt =====
-- The values of a `Map`, one for each key.
use repo_mentor.Prelude.{
  Bool-cases, String, [], beq_ne, beq_refl, if◌then◌else◌, inl, inr, nat_eq, none, option_eq, refl,
  some, string_eq, sym, ◌==◌, ◌∙◌, ◌∷◌, ◌≡◌, ◌≢◌,
}
use mathlib.Core.List.{Memᴰ}
use mathlib.Core.List.Memᴰ.{head, tail}
use repo_mentor.Dict.{Dict, get, set, values}
use repo_mentor.Dict.Laws.{get-set_ne}

module _ {ℓ} {V : Type ℓ} where
  -- No key has two entries.
  abbrev pub Distinct : Dict V → Type ℓ
  Distinct [] = Unit
  Distinct ((k, v) ∷ m) = (get k m ≡ none) × Distinct m

  pub set-Distinct : (k : String) (v : V) (m : Dict V) → Distinct m → Distinct (set k v m)
  unfolding set get
  set-Distinct k v [] h = (refl, tt)
  set-Distinct k v ((j, w) ∷ m) (fresh, h) = elim (Bool-cases (j == k)) [
    | inl here ↦ rw (here, if◌then◌else◌) (fresh, h)
    | inr other ↦
        rw (other, if◌then◌else◌)
          (
            get-set_ne k j v m (beq_ne k j λ e. cc (rw (← e, beq_refl k) at other)) ∙ fresh,
            set-Distinct k v m h,
          )
  ]

  -- A value has a key under which it is found.
  pub Mem-values :
      (v : V) (m : Dict V) → Distinct m → Memᴰ v (values m) → (k : String) × (get k m ≡ some v)
  unfolding get
  Mem-values v [] h p = elim p [ ]
  Mem-values v ((k, w) ∷ m) h (head e) = (k, rw (beq_refl k, if◌then◌else◌) (rw e refl))
  Mem-values v ((j, w) ∷ m) (fresh, h) (tail p) =
      let (k, found) = Mem-values v m h p in
      let other : j ≢ k = λ e. cc (rw e at fresh, found) in
      (k, rw (beq_ne j k other, if◌then◌else◌) found)

  -- What is found is a value.
  pub get-Mem : (k : String) (v : V) (m : Dict V) → get k m ≡ some v → Memᴰ v (values m)
  unfolding get
  get-Mem k v [] h = cc
  get-Mem k v ((j, w) ∷ m) h = elim (Bool-cases (j == k)) [
    | inl here ↦ let same : w ≡ v = cc (rw (here, if◌then◌else◌) at h) in head (sym same)
    | inr other ↦ tail (get-Mem k v m (rw (other, if◌then◌else◌) at h))
  ]
