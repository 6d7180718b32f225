-- ===== src/Review/Processing/Triple.antt =====
-- Properties of what a method leaves behind.
use repo_mentor.Review.Processing.{BoundaryErrorCode}
use repo_mentor.Review.Persistence.{Schemas}
use mathlib.Core.Path.{subst}
use repo_mentor.Prelude.{Option, Result, err, none, ok, some, ◌≡◌}
use repo_mentor.Review.Processing.World.{lift, bind_result, M, World, Thrown}

-- A value that is there.
abbrev pub Each : {A : Type 0} → (A → Type 0) → Option A → Type 0
Each Q none = Unit
Each Q (some a) = Q a

-- The value of code that throws a boundary error or returns.
abbrev pub Lifted : {A : Type 0} → (A → Type 0) → Result BoundaryErrorCode A → Type 0
Lifted Q (ok a) = Q a
Lifted Q (err e) = Unit

module _ {S : Schemas} where
  -- What holds of the world and of the value when a method returns, and of the world when it throws.
  abbrev pub After :
      {A : Type 0}
      → (World S → A → Type 0)
      → (World S → Type 0)
      → World S × Result Thrown A
      → Type 0
  After Q X (w, ok a) = Q w a
  After Q X (w, err e) = X w

  -- The property `I` of the world holds at the end, and `Q` of a value that is returned.
  abbrev pub Good :
      {A : Type 0}
      → (World S → Type 0)
      → (World S → A → Type 0)
      → World S × Result Thrown A
      → Type 0
  Good I Q p = After (λ w a. I w × Q w a) I p

  pub Good-bind_result :
      (I : World S → Type 0) {A B : Type 0} (R : World S → A → Type 0) (Q : World S → B → Type 0)
      (f : A → M S B) (p : World S × Result Thrown A)
      → Good I R p
      → ((w : World S) (a : A) → I w → R w a → Good I Q (f a w))
      → Good I Q (bind_result p f)
  Good-bind_result I R Q f (w, ok a) (i, h) k = k w a i h
  Good-bind_result I R Q f (w, err e) i k = i

  pub Good-imp :
      (I : World S → Type 0) {A : Type 0} (Q Q' : World S → A → Type 0)
      (p : World S × Result Thrown A)
      → Good I Q p
      → ((w : World S) (a : A) → Q w a → Q' w a)
      → Good I Q' p
  Good-imp I Q Q' (w, ok a) (i, h) k = (i, k w a h)
  Good-imp I Q Q' (w, err e) i k = i

  pub Good-lift :
      (I : World S → Type 0) {A : Type 0} (Q : World S → A → Type 0)
      (m : Result BoundaryErrorCode A) (w : World S)
      → I w
      → Lifted (Q w) m
      → Good I Q (lift m w)
  Good-lift I Q (ok a) w i h = (i, h)
  Good-lift I Q (err e) w i h = i

  pub Good-weaken :
      (I J : World S → Type 0) {A : Type 0} (Q : World S → A → Type 0)
      (p : World S × Result Thrown A)
      → ((w : World S) → I w → J w)
      → Good I Q p
      → Good J Q p
  Good-weaken I J Q (w, ok a) f (i, h) = (f w i, h)
  Good-weaken I J Q (w, err e) f i = f w i

  pub Good-also :
      (I : World S → Type 0) {A : Type 0} (Q : World S → A → Type 0) (p : World S × Result Thrown A)
      → Good I Q p
      → Good I (λ w a. I w × Q w a) p
  Good-also I Q (w, ok a) (i, h) = (i, (i, h))
  Good-also I Q (w, err e) i = i

  -- A sequence whose second part may give up some of what is known of the world.
  pub Good-then :
      (I J : World S → Type 0) {A B : Type 0} (R : World S → A → Type 0) (Q : World S → B → Type 0)
      (f : A → M S B) (p : World S × Result Thrown A)
      → ((w : World S) → I w → J w)
      → Good I R p
      → ((w : World S) (a : A) → I w → R w a → Good J Q (f a w))
      → Good J Q (bind_result p f)
  Good-then I J R Q f (w, ok a) weak (i, h) k = k w a i h
  Good-then I J R Q f (w, err e) weak i k = weak w i

  -- What is known of a return.
  pub Good-returns :
      (I : World S → Type 0) {A : Type 0} (Q : World S → A → Type 0) {p : World S × Result Thrown A}
      {w : World S} {a : A}
      → Good I Q p
      → p ≡ (w, ok a)
      → Q w a
  Good-returns I Q h e = (subst (Good I Q) e h).1
