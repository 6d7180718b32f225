-- ===== src/Review/Repository/Listing/Pages.antt =====
-- What the pages of a list show.
use repo_mentor.Prelude.{
  Bool, Bool-cases, List, Option, [], and_parts, ap, arith, drop, eq_of_beq, filter, if◌then◌else◌,
  inl, inr, is_some, length, nat_eq, none, not, option_eq, refl, some, string_eq, suc, sym, take,
  true, zero, ℕ, ◌*◌, ◌++◌, ◌+◌, ◌==◌, ◌∙◌, ◌∷◌, ◌≡◌, ◌≤◌,
}
use mathlib.Core.List.{Memᴰ}
use mathlib.Core.List.Memᴰ.{head, tail, cases_cons}
use repo_mentor.Dict
use repo_mentor.Review.Types.{ReviewRecord, mode_eq, status_eq}
use repo_mentor.Review.Repository.{Repository}
use repo_mentor.Review.Repository.Listing.{
  ReviewListInput, BuiltIns, Comparison, is_wanted, title_matches, is_listed, compare_reviews,
  listed, page_of, list_for_user,
}

take_nil {ℓ} : {A : Type ℓ} (n : ℕ) → take {A = A} n [] ≡ []
take_nil zero = refl
take_nil (suc n) = refl

take_add {ℓ} :
    {A : Type ℓ} (m n k : ℕ) (xs : List A) → k ≡ m + n → take k xs ≡ take m xs ++ take n (drop m xs)
take_add zero n k xs e = let same : k ≡ n = omega (arith, e) in rw same refl
take_add (suc m) n zero xs e = absurd (omega (arith, e))
take_add (suc m) n (suc k) [] e = sym (take_nil n)
take_add (suc m) n (suc k) (x ∷ xs) e = ap (λ ys. x ∷ ys) (take_add m n k xs (omega (arith, e)))

none_taken {ℓ} : {A : Type ℓ} (k n : ℕ) (xs : List A) → k ≡ 0 * n → [] ≡ take k xs
none_taken zero n xs e = refl
none_taken (suc k) n xs e = absurd (grind (arith, e))

page_of-next :
    (n limit : ℕ) (xs : List ReviewRecord)
    → take (n * limit) xs ++ page_of (suc n) limit xs ≡ take (suc n * limit) xs
unfolding page_of
page_of-next n limit xs = sym (take_add (n * limit) limit (suc n * limit) xs (grind arith))

take_all {ℓ} : {A : Type ℓ} (n : ℕ) (xs : List A) → length xs ≤ n → take n xs ≡ xs
take_all zero [] h = refl
take_all zero (x ∷ xs) h = absurd (omega (arith, h))
take_all (suc n) [] h = refl
take_all (suc n) (x ∷ xs) h = ap (λ ys. x ∷ ys) (take_all n xs (omega (arith, h)))

Mem-take {ℓ} : {A : Type ℓ} (n : ℕ) (xs : List A) (a : A) → Memᴰ a (take n xs) → Memᴰ a xs
Mem-take zero xs a m = elim m [ ]
Mem-take (suc n) [] a m = elim m [ ]
Mem-take (suc n) (x ∷ xs) a (head e) = head e
Mem-take (suc n) (x ∷ xs) a (tail m) = tail (Mem-take n xs a m)

Mem-drop {ℓ} : {A : Type ℓ} (n : ℕ) (xs : List A) (a : A) → Memᴰ a (drop n xs) → Memᴰ a xs
Mem-drop zero xs a m = m
Mem-drop (suc n) [] a m = m
Mem-drop (suc n) (x ∷ xs) a m = tail (Mem-drop n xs a m)

Mem-filter {ℓ} :
    {A : Type ℓ} (p : A → Bool) (xs : List A) (a : A)
    → Memᴰ a (filter p xs)
    → Memᴰ a xs × (p a ≡ true)
Mem-filter p [] a m = elim m [ ]
Mem-filter p (x ∷ xs) a m = elim (Bool-cases (p x)) [
  | inl holds ↦ elim (cases_cons (rw (holds, if◌then◌else◌) at m)) [
    | inl e ↦ (head e, rw e holds)
    | inr later ↦ let (kept, passed) = Mem-filter p xs a later in (tail kept, passed)
  ]
  | inr fails ↦
      let (kept, holds) = Mem-filter p xs a (rw (fails, if◌then◌else◌) at m) in (tail kept, holds)
]

length-take {ℓ} : {A : Type ℓ} (n : ℕ) (xs : List A) → length (take n xs) ≤ n
length-take zero xs = omega arith
length-take (suc n) [] = omega arith
length-take (suc n) (x ∷ xs) = omega (arith, length-take n xs)

page_of-Mem :
    (page limit : ℕ) (xs : List ReviewRecord) (a : ReviewRecord)
    → Memᴰ a (page_of page limit xs)
    → Memᴰ a xs
unfolding page_of
page_of-Mem zero limit xs a m = elim m [ ]
page_of-Mem (suc n) limit xs a m =
    Mem-drop (n * limit) xs a (Mem-take limit (drop (n * limit) xs) a m)

page_of-length : (page limit : ℕ) (xs : List ReviewRecord) → length (page_of page limit xs) ≤ limit
unfolding page_of
page_of-length zero limit xs = omega arith
page_of-length (suc n) limit xs = length-take limit (drop (n * limit) xs)

not_deleted : (d : Option ℕ) → not (is_some d) ≡ true → d ≡ none
not_deleted none h = refl
not_deleted (some t) h = cc

listed_parts :
    (b : BuiltIns) (input : ReviewListInput) (x : ReviewRecord)
    → is_listed b input x ≡ true
    → (x.user_id ≡ input.user_id) × (x.deleted_at ≡ none)
unfolding is_listed
listed_parts b input x h =
    let (h₁, _) = and_parts _ (is_wanted input.status x.status) h in
    let (h₂, _) = and_parts _ (is_wanted input.mode x.mode) h₁ in
    let (h₃, _) = and_parts _ (is_wanted input.language x.language) h₂ in
    let (h₄, _) = and_parts _ (title_matches b input.title x.title) h₃ in
    let (user, live) = and_parts (x.user_id == input.user_id) (not (is_some x.deleted_at)) h₄ in
    (eq_of_beq x.user_id input.user_id user, not_deleted x.deleted_at live)

module _ (b : BuiltIns) {R : Type 0} where
  -- The reviews of the pages from 1 to `n`, in a row.
  unfoldable pub read_pages : Repository R → ReviewListInput → ℕ → List ReviewRecord
  read_pages s input zero = []
  read_pages s input (suc n) =
      read_pages s input n ++ (list_for_user b s (record input { page = suc n })).items

  read_pages-take :
      (s : Repository R) (input : ReviewListInput) (n : ℕ)
      → read_pages s input n ≡ take (n * input.limit) (listed b s input)
  unfolding read_pages list_for_user listed page_of is_listed
  read_pages-take s input zero = none_taken (0 * input.limit) input.limit (listed b s input) refl
  read_pages-take s input (suc n) =
      rw (read_pages-take s input n) (page_of-next n input.limit (listed b s input))

  -- If `n` pages can hold the reported total, the pages from 1 to `n` in a row are all the listed reviews,
  -- each once and in the order of the sort.
  pub list_for_user-pages :
      (s : Repository R) (input : ReviewListInput) (n : ℕ)
      → (list_for_user b s input).total ≤ n * input.limit
      → read_pages s input n ≡ listed b s input
  unfolding list_for_user
  list_for_user-pages s input n h =
      read_pages-take s input n ∙ take_all (n * input.limit) (listed b s input) h

  -- If sorting invents no element, every listed review is a stored one of the asking user, not deleted, and
  -- passes the filters, and a page has at most `limit` of them.
  pub list_for_user-shows :
      ((order : ReviewRecord → ReviewRecord → Comparison) (xs : List ReviewRecord)
          (x : ReviewRecord)
        → Memᴰ x (b.sort order xs)
        → Memᴰ x xs)
      → (s : Repository R) (input : ReviewListInput) (x : ReviewRecord)
      → Memᴰ x (list_for_user b s input).items
      → Memᴰ x (Dict.values s.reviews)
        × (x.user_id ≡ input.user_id)
        × (x.deleted_at ≡ none)
        × (is_listed b input x ≡ true)
        × (length (list_for_user b s input).items ≤ input.limit)
  unfolding list_for_user listed
  list_for_user-shows keeps s input x m =
      let sorted = page_of-Mem input.page input.limit (listed b s input) x m in
      let stored =
        keeps (compare_reviews b input.sort) (filter (is_listed b input) (Dict.values s.reviews)) x
          sorted in
      let (member, passed) = Mem-filter (is_listed b input) (Dict.values s.reviews) x stored in
      let (user, live) = listed_parts b input x passed in
      (member, user, live, passed, page_of-length input.page input.limit (listed b s input))
