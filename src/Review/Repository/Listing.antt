-- ===== src/Review/Repository/Listing.antt =====
-- in-memory-review.repository.ts, `listForUser`, and the list types of review.types.ts. The built-ins on
-- texts and `Array.prototype.sort` are parameters. A page is a number of at least 0.
pub mod Pages
mod Tests
use repo_mentor.Prelude.{
  Bool, Eq, List, Option, String, [], drop, false, filter, get_or, if◌then◌else◌, is_some, length,
  ltb, nat_eq, none, not, option_eq, some, string_eq, suc, take, true, zero, ℕ, ◌&&◌, ◌*◌, ◌==◌,
}
use repo_mentor.Dict
use repo_mentor.Review.Types.{ReviewRecord, ReviewMode, ReviewStatus, mode_eq, status_eq}
use repo_mentor.Review.Repository.{Repository}

pub data ReviewSortOrder : Type 0 where
  asc desc : ReviewSortOrder

pub record ReviewListInput : Type 0 where
  pub user_id : String
  pub page : ℕ
  pub limit : ℕ
  pub title : Option String
  pub language : Option String
  pub mode : Option ReviewMode
  pub status : Option ReviewStatus
  pub sort : Option ReviewSortOrder

pub record ReviewListResult : Type 0 where
  pub items : List ReviewRecord
  pub total : ℕ

-- The sign of a comparison.
pub data Comparison : Type 0 where
  less same greater : Comparison

abbrev pub reverse : Comparison → Comparison
reverse less = greater
reverse same = same
reverse greater = less

-- `wanted === undefined || actual === wanted`
abbrev pub is_wanted {ℓ} : {A : Type ℓ} ⦃e : Eq A⦄ → Option A → A → Bool
is_wanted none actual = true
is_wanted (some wanted) actual = actual == wanted

-- What `listForUser` uses of the built-ins: `toLowerCase`, `includes`, `localeCompare` and `sort`.
pub record BuiltIns : Type 0 where
  pub to_lower_case : String → String
  pub contains : String → String → Bool
  pub locale_compare : String → String → Comparison
  pub sort : (ReviewRecord → ReviewRecord → Comparison) → List ReviewRecord → List ReviewRecord

-- The second comparison decides where the first does not.
abbrev pub or_else : Comparison → Comparison → Comparison
or_else less tie = less
or_else same tie = tie
or_else greater tie = greater

-- `filtered.slice(start, start + limit)`; for page 0 the slice ends where it begins or before.
unfoldable pub page_of : ℕ → ℕ → List ReviewRecord → List ReviewRecord
page_of zero limit reviews = []
page_of (suc before) limit reviews = take limit (drop (before * limit) reviews)

module _ (b : BuiltIns) where
  unfoldable pub title_matches : Option String → Option String → Bool
  title_matches none title = true
  title_matches (some wanted) none = false
  title_matches (some wanted) (some title) =
      b.contains (b.to_lower_case title) (b.to_lower_case wanted)

  -- The filter.
  unfoldable pub is_listed : ReviewListInput → ReviewRecord → Bool
  unfolding title_matches
  is_listed input review =
      review.user_id == input.user_id
      && not (is_some review.deleted_at)
      && title_matches input.title review.title
      && is_wanted input.language review.language
      && is_wanted input.mode review.mode
      && is_wanted input.status review.status

  -- The comparator.
  unfoldable pub compare_reviews : Option ReviewSortOrder → ReviewRecord → ReviewRecord → Comparison
  compare_reviews order left right =
      let created =
        if ltb left.created_at right.created_at
        then less
        else if ltb right.created_at left.created_at
        then greater
        else same in
      elim (get_or order desc) [
        | asc ↦ or_else created (b.locale_compare left.id right.id)
        | desc ↦ or_else (reverse created) (b.locale_compare right.id left.id)
      ]

  -- The filtered and sorted reviews, of which a page is a slice.
  unfoldable pub listed : {R : Type 0} → Repository R → ReviewListInput → List ReviewRecord
  listed s input =
      b.sort (compare_reviews input.sort) (filter (is_listed input) (Dict.values s.reviews))

  unfoldable pub list_for_user : {R : Type 0} → Repository R → ReviewListInput → ReviewListResult
  list_for_user s input = record {
    items = page_of input.page input.limit (listed s input);
    total = length (listed s input);
  }
