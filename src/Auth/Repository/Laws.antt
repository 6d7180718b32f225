-- ===== src/Auth/Repository/Laws.antt =====
-- What revoking all the sessions of a user and changing a password do.
use repo_mentor.Prelude.{
  Bool, Bool-cases, List, Option, String, arith, eq_of_beq, false, filter, if◌then◌else◌, inl, inr,
  length, nat_eq, none, not, option_eq, refl, some, string_eq, sym, true, ℕ, ◌==◌, ◌||◌, ◌∙◌, ◌≡◌,
}
use mathlib.Core.Path.{subst}
use mathlib.Core.List.{Memᴰ}
use repo_mentor.Dict
use repo_mentor.Dict.{Dict}
use repo_mentor.Dict.Laws.{get-set_self}
use repo_mentor.Dict.Values.{Mem-values, get-Mem}
use repo_mentor.Auth.{
  AuthSessionRecord, AuthUserRecord, AuthSessionRevocationReason, ChangePasswordInput, logout_all,
  is_active_user,
}
use repo_mentor.Auth.Repository.{
  Repository, empty, change_password, change_password_of, revoke_all_user_sessions, revoke_each,
  with_password, is_active_of,
}
use repo_mentor.Auth.Repository.Loop.{revoke_each-keeps, revoke_each-none_left, revoke_each-count}
use repo_mentor.Auth.Repository.Invariant.{IsValid, Call, run, reached-IsValid}

-- The values of the map, by their ids.
only_stored :
    (s : Repository) (k : String) (a : AuthSessionRecord)
    → IsValid s
    → Dict.get k s.sessions ≡ some a
    → (x : AuthSessionRecord) → Memᴰ x (Dict.values s.sessions)
    → x.id ≡ k
    → x ≡ a
only_stored s k a v found x member named =
    let (j, stored) = Mem-values x s.sessions v.sessions.distinct member in
    let e : j ≡ k = sym (v.sessions.ids j x stored) ∙ named in
    let stored_k : Dict.get k s.sessions ≡ some x =
      subst (λ i. Dict.get i s.sessions ≡ some x) e stored in
    cc (stored_k, found)

-- The loop over all sessions, from a valid repository.
pub loop-keeps :
    (s : Repository) (user_id : String) (reason : AuthSessionRevocationReason) (now : ℕ)
    (k : String) (a : AuthSessionRecord)
    → IsValid s
    → is_active_of user_id a ≡ false
    → Dict.get k s.sessions ≡ some a
    → Dict.get k (revoke_each user_id reason now (Dict.values s.sessions) s.sessions).0 ≡ some a
loop-keeps s user_id reason now k a v untouched found =
    revoke_each-keeps user_id reason now (Dict.values s.sessions) s.sessions k a untouched
      (only_stored s k a v found) found

loop-none_left :
    (s : Repository) (user_id : String) (reason : AuthSessionRevocationReason) (now : ℕ)
    (k : String) (a : AuthSessionRecord)
    → IsValid s
    → Dict.get k (revoke_each user_id reason now (Dict.values s.sessions) s.sessions).0 ≡ some a
    → is_active_of user_id a ≡ false
loop-none_left s user_id reason now k a v found =
    revoke_each-none_left user_id reason now (Dict.values s.sessions) s.sessions
      (λ j b stored _. (get-Mem j b s.sessions stored, v.sessions.ids j b stored)) k a found

-- On a repository that calls lead to, `revokeAllUserSessions` leaves no active session of the user, keeps
-- every session that was not an active one of the user as it was, and returns how many there were.
pub revoke_all_user_sessions-effect :
    (cs : List Call) (user_id : String) (reason : AuthSessionRevocationReason) (now : ℕ)
    → let s = run empty cs in
      let r = revoke_all_user_sessions s user_id reason now in
      ((k : String) (a : AuthSessionRecord)
        → Dict.get k r.0.sessions ≡ some a
        → is_active_of user_id a ≡ false)
      × ((k : String) (a : AuthSessionRecord)
          → is_active_of user_id a ≡ false
          → Dict.get k s.sessions ≡ some a
          → Dict.get k r.0.sessions ≡ some a)
      × (r.1 ≡ length (filter (is_active_of user_id) (Dict.values s.sessions)))
unfolding revoke_all_user_sessions
revoke_all_user_sessions-effect cs user_id reason now =
    let s = run empty cs in
    let v = reached-IsValid cs in
    (
      λ k a found. loop-none_left s user_id reason now k a v found,
      λ k a untouched found. loop-keeps s user_id reason now k a v untouched found,
      revoke_each-count user_id reason now (Dict.values s.sessions) s.sessions,
    )

second_holds : (p q : Bool) → not p || not q ≡ false → q ≡ true
second_holds p q h = ground arith

abbrev pub password_of : Option AuthUserRecord → Option String
password_of none = none
password_of (some user) = some user.password_hash

changed :
    (s t : Repository) (input : ChangePasswordInput) (user : Option AuthUserRecord)
    → change_password_of s input user ≡ (t, true)
    → (u : AuthUserRecord) × (user ≡ some u)
      × (u.password_hash ≡ input.expected_password_hash)
      × (t ≡ record {
        sessions = (revoke_each u.id logout_all input.now (Dict.values s.sessions) s.sessions).0;
        users = Dict.set u.id (with_password u input) s.users;
      })
unfolding change_password_of
changed s t input none h = cc
changed s t input (some u) h =
    elim (Bool-cases
      (not (is_active_user u) || not (u.password_hash == input.expected_password_hash))) [
        | inl refused ↦ cc (rw (refused, if◌then◌else◌) at h)
        | inr accepted ↦ (
          u,
          refl,
          eq_of_beq u.password_hash input.expected_password_hash (second_holds _ _ accepted),
          cc (rw (accepted, if◌then◌else◌) at h),
        )
      ]

-- On a repository that calls lead to: if `changePassword` succeeds, the user had the expected password hash and
-- has the next one, no session of the user is active, and every session that was not an active one of the user
-- is as it was.
pub change_password-effect :
    (cs : List Call) (t : Repository) (input : ChangePasswordInput)
    → let s = run empty cs in
      change_password s input ≡ (t, true)
      → (password_of (Dict.get input.user_id s.users) ≡ some input.expected_password_hash)
        × (password_of (Dict.get input.user_id t.users) ≡ some input.next_password_hash)
        × ((k : String) (a : AuthSessionRecord)
            → Dict.get k t.sessions ≡ some a
            → is_active_of input.user_id a ≡ false)
        × ((k : String) (a : AuthSessionRecord)
            → is_active_of input.user_id a ≡ false
            → Dict.get k s.sessions ≡ some a
            → Dict.get k t.sessions ≡ some a)
unfolding change_password change_password_of
change_password-effect cs t input h =
    let s = run empty cs in
    let v = reached-IsValid cs in
    let (u, found, expected, shape) = changed s t input (Dict.get input.user_id s.users) h in
    let named : u.id ≡ input.user_id = v.users.ids input.user_id u found in
    (
      rw (found, expected) refl,
      rw shape (
          rw
            (subst
              (λ i.
                Dict.get i (Dict.set u.id (with_password u input) s.users)
                ≡ some (with_password u input))
              named (get-set_self u.id (with_password u input) s.users))
            refl),
      λ k a stored.
          subst (λ i. is_active_of i a ≡ false) named
            (loop-none_left s u.id logout_all input.now k a v (rw shape at stored)),
      λ k a untouched stored. rw shape (
          loop-keeps s u.id logout_all input.now k a v
            (subst (λ i. is_active_of i a ≡ false) (sym named) untouched) stored),
    )
