-- ===== src/Auth/Repository/Loop.antt =====
-- The loop that revokes the active sessions of a user.
use repo_mentor.Prelude.{
  Bool-cases, List, String, [], arith, beq_ne, beq_refl, eq_of_beq, false, filter, if◌then◌else◌,
  inl, inr, length, nat_eq, option_eq, refl, some, string_eq, true, ℕ, ◌==◌, ◌∙◌, ◌∷◌, ◌≡◌, ◌≢◌,
}
use mathlib.Core.List.{Memᴰ}
use mathlib.Core.List.Memᴰ.{head, tail}
use repo_mentor.Dict
use repo_mentor.Dict.{Dict}
use repo_mentor.Dict.Laws.{get-set, get-set_ne}
use repo_mentor.Dict.Values.{Distinct, set-Distinct}
use repo_mentor.Auth.{AuthSessionRecord, AuthSessionRevocationReason, is_active}
use repo_mentor.Auth.Repository.{revoke_each, is_active_of, revoke_session_record}

-- A member with another id than the first is further down.
later_id :
    (x : AuthSessionRecord) (xs : List AuthSessionRecord) (b : AuthSessionRecord) (j : String)
    → Memᴰ b (x ∷ xs)
    → b.id ≡ j
    → x.id == j ≡ false
    → Memᴰ b xs
later_id x xs b j (tail p) named other = p
later_id x xs b j (head e) named other =
    let same : x.id ≡ j = rw (← e) named in cc (rw (same, beq_refl j) at other)

later_inactive :
    (user_id : String) (x : AuthSessionRecord) (xs : List AuthSessionRecord) (b : AuthSessionRecord)
    → Memᴰ b (x ∷ xs)
    → is_active_of user_id x ≡ false
    → is_active_of user_id b ≡ true
    → Memᴰ b xs
later_inactive user_id x xs b (tail p) skipped still = p
later_inactive user_id x xs b (head e) skipped still = cc (rw e at still, skipped)

module _ (user_id : String) (reason : AuthSessionRevocationReason) (now : ℕ) where
  -- A session that is not an active one of the user stays as it is, if the loop visits no other with its id.
  pub revoke_each-keeps :
      (xs : List AuthSessionRecord) (d : Dict AuthSessionRecord) (k : String)
      (a : AuthSessionRecord)
      → is_active_of user_id a ≡ false
      → ((x : AuthSessionRecord) → Memᴰ x xs → x.id ≡ k → x ≡ a)
      → Dict.get k d ≡ some a
      → Dict.get k (revoke_each user_id reason now xs d).0 ≡ some a
  unfolding revoke_each
  revoke_each-keeps [] d k a untouched only found = found
  revoke_each-keeps (x ∷ xs) d k a untouched only found =
      let rest : (y : AuthSessionRecord) → Memᴰ y xs → y.id ≡ k → y ≡ a = λ y p. only y (tail p) in
      elim (Bool-cases (is_active_of user_id x)) [
        | inl visited ↦
            let other : x.id ≢ k = λ e. cc (rw (only x (head refl) e) at visited, untouched) in
            let kept =
              get-set_ne x.id k (revoke_session_record x reason now) d (beq_ne x.id k other)
              ∙ found in
            rw (visited, if◌then◌else◌) (revoke_each-keeps xs _ k a untouched rest kept)
        | inr skipped ↦
            rw (skipped, if◌then◌else◌) (revoke_each-keeps xs d k a untouched rest found)
      ]

  revoked-inactive :
      (x : AuthSessionRecord) → is_active_of user_id (revoke_session_record x reason now) ≡ false
  unfolding is_active_of is_active
  revoked-inactive x = ground arith

  -- If the loop visits every active session of the user, none is left.
  pub revoke_each-none_left :
      (xs : List AuthSessionRecord) (d : Dict AuthSessionRecord)
      → ((k : String) (a : AuthSessionRecord)
          → Dict.get k d ≡ some a
          → is_active_of user_id a ≡ true
          → Memᴰ a xs × (a.id ≡ k))
      → (k : String) (a : AuthSessionRecord)
      → Dict.get k (revoke_each user_id reason now xs d).0 ≡ some a
      → is_active_of user_id a ≡ false
  unfolding revoke_each
  revoke_each-none_left [] d visits k a found = elim (Bool-cases (is_active_of user_id a)) [
    | inl still ↦ let (p, _) = visits k a found still in elim p [ ]
    | inr done ↦ done
  ]
  revoke_each-none_left (x ∷ xs) d visits k a found = elim (Bool-cases (is_active_of user_id x)) [
    | inl visited ↦
        revoke_each-none_left xs (Dict.set x.id (revoke_session_record x reason now) d)
          (λ j b found_b still. elim (Bool-cases (x.id == j)) [
            | inl here ↦
                let same : revoke_session_record x reason now ≡ b =
                  cc (rw (get-set, here) at found_b) in
                let ended : is_active_of user_id b ≡ false = rw (← same) (revoked-inactive x) in
                cc (still, ended)
            | inr other ↦
                let (p, named) = visits j b (rw (get-set, other) at found_b) still in
                (later_id x xs b j p named other, named)
          ])
          k a (rw (visited, if◌then◌else◌) at found)
    | inr skipped ↦
        revoke_each-none_left xs d
          (λ j b found_b still.
            let (p, named) = visits j b found_b still in
            (later_inactive user_id x xs b p skipped still, named))
          k a (rw (skipped, if◌then◌else◌) at found)
  ]

  pub revoke_each-count :
      (xs : List AuthSessionRecord) (d : Dict AuthSessionRecord)
      → (revoke_each user_id reason now xs d).1 ≡ length (filter (is_active_of user_id) xs)
  unfolding revoke_each
  revoke_each-count [] d = refl
  revoke_each-count (x ∷ xs) d = elim (Bool-cases (is_active_of user_id x)) [
    | inl visited ↦
        rw (visited, if◌then◌else◌)
          (rw (revoke_each-count xs (Dict.set x.id (revoke_session_record x reason now) d))
            (omega arith))
    | inr skipped ↦ rw (skipped, if◌then◌else◌) (revoke_each-count xs d)
  ]

  -- The loop writes under ids that are sessions' own.
  pub revoke_each-ids :
      (xs : List AuthSessionRecord) (d : Dict AuthSessionRecord)
      → ((k : String) (a : AuthSessionRecord) → Dict.get k d ≡ some a → a.id ≡ k)
      → (k : String) (a : AuthSessionRecord)
      → Dict.get k (revoke_each user_id reason now xs d).0 ≡ some a
      → a.id ≡ k
  unfolding revoke_each
  revoke_each-ids [] d ids k a found = ids k a found
  revoke_each-ids (x ∷ xs) d ids k a found = elim (Bool-cases (is_active_of user_id x)) [
    | inl visited ↦
        revoke_each-ids xs (Dict.set x.id (revoke_session_record x reason now) d)
          (λ j b found_b. elim (Bool-cases (x.id == j)) [
            | inl here ↦
                let same : revoke_session_record x reason now ≡ b =
                  cc (rw (get-set, here) at found_b) in
                rw (← same) (eq_of_beq x.id j here)
            | inr other ↦ ids j b (rw (get-set, other) at found_b)
          ])
          k a (rw (visited, if◌then◌else◌) at found)
    | inr skipped ↦ revoke_each-ids xs d ids k a (rw (skipped, if◌then◌else◌) at found)
  ]

  pub revoke_each-Distinct :
      (xs : List AuthSessionRecord) (d : Dict AuthSessionRecord)
      → Distinct d
      → Distinct (revoke_each user_id reason now xs d).0
  unfolding revoke_each
  revoke_each-Distinct [] d h = h
  revoke_each-Distinct (x ∷ xs) d h = elim (Bool-cases (is_active_of user_id x)) [
    | inl visited ↦
        rw (visited, if◌then◌else◌)
          (revoke_each-Distinct xs _ (set-Distinct x.id (revoke_session_record x reason now) d h))
    | inr skipped ↦ rw (skipped, if◌then◌else◌) (revoke_each-Distinct xs d h)
  ]
