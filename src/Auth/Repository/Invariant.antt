-- ===== src/Auth/Repository/Invariant.antt =====
-- What holds of the users and sessions after any calls.
use mathlib.Core.Path.{subst}
use repo_mentor.Prelude.{
  Bool, Bool-cases, List, Option, Result, String, [], any, arith, beq_refl, eq_of_beq, err, false,
  if◌then◌else◌, inl, inr, nat_eq, none, not, ok, option_eq, refl, some, string_eq, sym, ℕ, ◌==◌,
  ◌||◌, ◌∙◌, ◌∷◌, ◌≡◌,
}
use mathlib.Core.List.{Memᴰ}
use mathlib.Core.List.Memᴰ.{head, tail}
use repo_mentor.Dict
use repo_mentor.Dict.{Dict}
use repo_mentor.Dict.Laws.{get-set}
use repo_mentor.Dict.Values.{Distinct, set-Distinct, get-Mem}
use repo_mentor.Auth.{
  AuthError, AuthSessionRecord, AuthUserRecord, AuthSessionRevocationReason, CreateUserInput,
  ChangePasswordInput, CreateSessionInput, RotateRefreshTokenInput, logout_all, refresh_reuse,
  is_active, is_active_user,
}
use repo_mentor.Auth.Repository.{
  Repository, empty, create_user, change_password, change_password_of, create_session,
  rotate_refresh_token, rotate_found, revoke_session, revoke_found, revoke_all_user_sessions,
  revoke_session_record, rotated_session, with_password, new_user, new_session,
}
use repo_mentor.Auth.Repository.Loop.{revoke_each-ids, revoke_each-Distinct}

-- Every session is stored once and under its id.
pub record HasSessions (sessions : Dict AuthSessionRecord) : Type 0 where
  pub ids : (k : String) (a : AuthSessionRecord) → Dict.get k sessions ≡ some a → a.id ≡ k
  pub distinct : Distinct sessions

-- Every user is stored under its id, and no two users have the same email.
pub record HasUsers (users : Dict AuthUserRecord) : Type 0 where
  pub ids : (k : String) (u : AuthUserRecord) → Dict.get k users ≡ some u → u.id ≡ k
  pub emails :
      (j k : String) (u v : AuthUserRecord)
      → Dict.get j users ≡ some u
      → Dict.get k users ≡ some v
      → u.email ≡ v.email
      → j ≡ k

pub record IsValid (s : Repository) : Type 0 where
  pub sessions : HasSessions s.sessions
  pub users : HasUsers s.users

-- Calls of the methods that write; the number in a creation is the time that the method reads.
pub data Call : Type 0 where
  create_user_call : CreateUserInput → ℕ → Call
  change_password_call : ChangePasswordInput → Call
  create_session_call : CreateSessionInput → Call
  rotate_call : RotateRefreshTokenInput → Call
  revoke_call revoke_all_call : String → AuthSessionRevocationReason → ℕ → Call

abbrev pub state_after {ℓ} :
    {A : Type ℓ} → Repository → Result AuthError (Repository × A) → Repository
state_after s (ok (t, _)) = t
state_after s (err e) = s

unfoldable pub step : Repository → Call → Repository
step s (create_user_call input now) = state_after s (create_user s input now)
step s (change_password_call input) = (change_password s input).0
step s (create_session_call input) = state_after s (create_session s input)
step s (rotate_call input) = (rotate_refresh_token s input).0
step s (revoke_call id reason now) = revoke_session s id reason now
step s (revoke_all_call user_id reason now) = (revoke_all_user_sessions s user_id reason now).0

unfoldable pub run : Repository → List Call → Repository
unfolding step
run s [] = s
run s (c ∷ cs) = run (step s c) cs

set-HasSessions :
    (d : Dict AuthSessionRecord) (k : String) (a : AuthSessionRecord)
    → a.id ≡ k
    → HasSessions d
    → HasSessions (Dict.set k a d)
set-HasSessions d k a named h = record {
  ids = λ j b found. elim (Bool-cases (k == j)) [
    | inl here ↦
        let same : a ≡ b = cc (rw (get-set, here) at found) in
        rw (← same) (named ∙ eq_of_beq k j here)
    | inr other ↦ h.ids j b (rw (get-set, other) at found)
  ];
  distinct = set-Distinct k a d h.distinct;
}

-- A user may be written if no other has its email.
set-HasUsers :
    (d : Dict AuthUserRecord) (k : String) (u : AuthUserRecord)
    → u.id ≡ k
    → ((j : String) (v : AuthUserRecord) → Dict.get j d ≡ some v → v.email ≡ u.email → j ≡ k)
    → HasUsers d
    → HasUsers (Dict.set k u d)
set-HasUsers d k u named alone h = record {
  ids = λ j b found. elim (Bool-cases (k == j)) [
    | inl here ↦
        let same : u ≡ b = cc (rw (get-set, here) at found) in
        rw (← same) (named ∙ eq_of_beq k j here)
    | inr other ↦ h.ids j b (rw (get-set, other) at found)
  ];
  emails = λ i j v w found_v found_w e. elim (Bool-cases (k == i)) [
    | inl here_v ↦ elim (Bool-cases (k == j)) [
      | inl here_w ↦ sym (eq_of_beq k i here_v) ∙ eq_of_beq k j here_w
      | inr other_w ↦
          let same : u ≡ v = cc (rw (get-set, here_v) at found_v) in
          sym (eq_of_beq k i here_v)
          ∙ sym (alone j w (rw (get-set, other_w) at found_w) (rw same (sym e)))
    ]
    | inr other_v ↦ elim (Bool-cases (k == j)) [
      | inl here_w ↦
          let same : u ≡ w = cc (rw (get-set, here_w) at found_w) in
          alone i v (rw (get-set, other_v) at found_v) (rw same e) ∙ eq_of_beq k j here_w
      | inr other_w ↦
          h.emails i j v w (rw (get-set, other_v) at found_v) (rw (get-set, other_w) at found_w) e
    ]
  ];
}

or_false : (p q : Bool) → p || q ≡ false → (p ≡ false) × (q ≡ false)
or_false p q h = ground arith

not_any :
    (p : AuthUserRecord → Bool) (xs : List AuthUserRecord) (u : AuthUserRecord)
    → any p xs ≡ false
    → Memᴰ u xs
    → p u ≡ false
not_any p [] u h m = elim m [ ]
not_any p (x ∷ xs) u h (head e) = rw e (or_false (p x) (any p xs) h).0
not_any p (x ∷ xs) u h (tail m) = not_any p xs u (or_false (p x) (any p xs) h).1 m

create_user-IsValid :
    (s t : Repository) (input : CreateUserInput) (now : ℕ) (u : AuthUserRecord)
    → IsValid s
    → create_user s input now ≡ ok (t, u)
    → IsValid t
unfolding create_user new_user
create_user-IsValid s t input now u v h =
    let taken = Dict.has input.id s.users in
    let shared = any (λ (user : AuthUserRecord). user.email == input.email) (Dict.values s.users) in
    elim (Bool-cases (taken || shared)) [
      | inl refused ↦ cc (rw (refused, if◌then◌else◌) at h)
      | inr free ↦
          let (_, alone) = or_false taken shared free in
          let shape : record s { users = Dict.set input.id (new_user input now) s.users } ≡ t =
            cc (rw (free, if◌then◌else◌) at h) in
          rw (← shape) (record {
            sessions = v.sessions;
            users =
                set-HasUsers s.users input.id (new_user input now) refl
                  (λ j w found same.
                    let differs : w.email == input.email ≡ false =
                      not_any _ (Dict.values s.users) w alone (get-Mem j w s.users found) in
                    cc (rw (same, beq_refl input.email) at differs))
                  v.users;
          })
    ]

change_password_of-IsValid :
    (s : Repository) (input : ChangePasswordInput) (found : Option AuthUserRecord)
    → Dict.get input.user_id s.users ≡ found
    → IsValid s
    → IsValid (change_password_of s input found).0
unfolding change_password_of
change_password_of-IsValid s input none h v = v
change_password_of-IsValid s input (some user) h v =
    elim (Bool-cases
      (not (is_active_user user) || not (user.password_hash == input.expected_password_hash))) [
        | inl refused ↦ rw (refused, if◌then◌else◌) v
        | inr accepted ↦
            let named = v.users.ids input.user_id user h in
            let stored : Dict.get user.id s.users ≡ some user =
              subst (λ k. Dict.get k s.users ≡ some user) (sym named) h in
            rw (accepted, if◌then◌else◌)
              (record {
                sessions = record {
                  ids =
                      revoke_each-ids user.id logout_all input.now (Dict.values s.sessions)
                        s.sessions v.sessions.ids;
                  distinct =
                      revoke_each-Distinct user.id logout_all input.now (Dict.values s.sessions)
                        s.sessions v.sessions.distinct;
                };
                users =
                    set-HasUsers s.users user.id (with_password user input) refl
                      (λ j w found same. v.users.emails j user.id w user found stored same) v.users;
              })
      ]

change_password-IsValid :
    (s : Repository) (input : ChangePasswordInput) → IsValid s → IsValid (change_password s input).0
unfolding change_password
change_password-IsValid s input v =
    change_password_of-IsValid s input (Dict.get input.user_id s.users) refl v

create_session-IsValid :
    (s t : Repository) (input : CreateSessionInput) (a : AuthSessionRecord)
    → IsValid s
    → create_session s input ≡ ok (t, a)
    → IsValid t
unfolding create_session new_session
create_session-IsValid s t input a v h = elim (Bool-cases (Dict.has input.id s.sessions)) [
  | inl taken ↦ cc (rw (taken, if◌then◌else◌) at h)
  | inr fresh ↦
      let shape : record s { sessions = Dict.set input.id (new_session input) s.sessions } ≡ t =
        cc (rw (fresh, if◌then◌else◌) at h) in
      rw (← shape) (record {
        sessions = set-HasSessions s.sessions input.id (new_session input) refl v.sessions;
        users = v.users;
      })
]

with_session-IsValid :
    (s : Repository) (a : AuthSessionRecord)
    → IsValid s
    → IsValid (record s { sessions = Dict.set a.id a s.sessions })
with_session-IsValid s a v = record {
  sessions = set-HasSessions s.sessions a.id a refl v.sessions;
  users = v.users;
}

rotate_found-IsValid :
    (s : Repository) (input : RotateRefreshTokenInput) (found : Option AuthSessionRecord)
    → IsValid s
    → IsValid (rotate_found s input found).0
unfolding rotate_found
rotate_found-IsValid s input none v = v
rotate_found-IsValid s input (some a) v = elim (Bool-cases (is_active a)) [
  | inl live ↦ elim (Bool-cases (a.refresh_token_hash == input.expected_refresh_token_hash)) [
    | inl same ↦ rw (live, same, if◌then◌else◌) (with_session-IsValid s (rotated_session a input) v)
    | inr other ↦
        rw (live, other, if◌then◌else◌)
          (with_session-IsValid s (revoke_session_record a refresh_reuse input.now) v)
  ]
  | inr ended ↦ rw (ended, if◌then◌else◌) v
]

pub rotate-IsValid :
    (s : Repository) (input : RotateRefreshTokenInput)
    → IsValid s
    → IsValid (rotate_refresh_token s input).0
unfolding rotate_refresh_token
rotate-IsValid s input v = rotate_found-IsValid s input (Dict.get input.session_id s.sessions) v

revoke_found-IsValid :
    (s : Repository) (id : String) (reason : AuthSessionRevocationReason) (now : ℕ)
    (found : Option AuthSessionRecord)
    → Dict.get id s.sessions ≡ found
    → IsValid s
    → IsValid (revoke_found s id reason now found)
unfolding revoke_found
revoke_found-IsValid s id reason now none h v = v
revoke_found-IsValid s id reason now (some a) h v = elim (Bool-cases (is_active a)) [
  | inl live ↦
      rw (live, if◌then◌else◌)
        (record {
          sessions =
              set-HasSessions s.sessions id (revoke_session_record a reason now)
                (v.sessions.ids id a h) v.sessions;
          users = v.users;
        })
  | inr ended ↦ rw (ended, if◌then◌else◌) v
]

revoke-IsValid :
    (s : Repository) (id : String) (reason : AuthSessionRevocationReason) (now : ℕ)
    → IsValid s
    → IsValid (revoke_session s id reason now)
unfolding revoke_session
revoke-IsValid s id reason now v =
    revoke_found-IsValid s id reason now (Dict.get id s.sessions) refl v

revoke_all-IsValid :
    (s : Repository) (user_id : String) (reason : AuthSessionRevocationReason) (now : ℕ)
    → IsValid s
    → IsValid (revoke_all_user_sessions s user_id reason now).0
unfolding revoke_all_user_sessions
revoke_all-IsValid s user_id reason now v = record {
  sessions = record {
    ids = revoke_each-ids user_id reason now (Dict.values s.sessions) s.sessions v.sessions.ids;
    distinct =
        revoke_each-Distinct user_id reason now (Dict.values s.sessions) s.sessions
          v.sessions.distinct;
  };
  users = v.users;
}

state_after-IsValid {ℓ} :
    {A : Type ℓ} (s : Repository) (m : Result AuthError (Repository × A))
    → IsValid s
    → ((t : Repository) (r : A) → m ≡ ok (t, r) → IsValid t)
    → IsValid (state_after s m)
state_after-IsValid s (ok (t, r)) v h = h t r refl
state_after-IsValid s (err e) v h = v

pub step-IsValid : (s : Repository) (c : Call) → IsValid s → IsValid (step s c)
unfolding step
step-IsValid s (create_user_call input now) v =
    state_after-IsValid s (create_user s input now) v
      λ t u h. create_user-IsValid s t input now u v h
step-IsValid s (change_password_call input) v = change_password-IsValid s input v
step-IsValid s (create_session_call input) v =
    state_after-IsValid s (create_session s input) v λ t a h. create_session-IsValid s t input a v h
step-IsValid s (rotate_call input) v = rotate-IsValid s input v
step-IsValid s (revoke_call id reason now) v = revoke-IsValid s id reason now v
step-IsValid s (revoke_all_call user_id reason now) v = revoke_all-IsValid s user_id reason now v

pub run-IsValid : (s : Repository) (cs : List Call) → IsValid s → IsValid (run s cs)
unfolding run
run-IsValid s [] v = v
run-IsValid s (c ∷ cs) v = run-IsValid (step s c) cs (step-IsValid s c v)

pub empty-IsValid : IsValid empty
unfolding empty Dict.get
empty-IsValid = record {
  sessions = record { ids = λ k a h. cc; distinct = tt };
  users = record { ids = λ k u h. cc; emails = λ j k u v h h' e. cc };
}

pub reached-IsValid : (cs : List Call) → IsValid (run empty cs)
reached-IsValid cs = run-IsValid empty cs empty-IsValid

-- After any calls on a new repository, every user is stored under its id and no two users have the same
-- email.
pub run-empty-HasUsers : (cs : List Call) → HasUsers (run empty cs).users
run-empty-HasUsers cs = (reached-IsValid cs).users
