-- ===== src/Review/Repository/Identifiers.antt =====
-- The fuel of the base-36 printing in a generated id.
use repo_mentor.Prelude.{
  Bool-cases, List, String, arith, if◌then◌else◌, inl, inr, ltb, refl, suc, zero, ℕ, ◌%◌, ◌/◌, ◌<◌,
  ◌∷◌, ◌≡◌, ◌≤◌,
}
use repo_mentor.Review.Repository.{to_base36, base36_digit}

-- Any fuel above the number prints the same digits, so the fuel of a generated id is enough.
pub to_base36_fuel :
    (f g n : ℕ) (acc : List String) → n < f → n < g → to_base36 f n acc ≡ to_base36 g n acc
unfolding to_base36
to_base36_fuel zero g n acc h k = absurd (omega (arith, h))
to_base36_fuel (suc f) zero n acc h k = absurd (omega (arith, k))
to_base36_fuel (suc f) (suc g) n acc h k = elim (Bool-cases (ltb n 36)) [
  | inl digit ↦ rw (digit, if◌then◌else◌) refl
  | inr more ↦
      let big : 36 ≤ n = ground (arith, more) in
      rw (more, if◌then◌else◌)
        (to_base36_fuel f g (n / 36) (base36_digit (n % 36) ∷ acc) (omega (arith, h, big))
          (omega (arith, k, big)))
]
