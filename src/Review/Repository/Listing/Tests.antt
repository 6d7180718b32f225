-- ===== src/Review/Repository/Listing/Tests.antt =====
-- Two pages of one review each, and the theorems at them.
use repo_mentor.Prelude.{
  String, [], arith, length, nat_eq, none, option_eq, refl, some, string_eq, true, ℕ, ◌*◌, ◌==◌,
  ◌∷◌, ◌≡◌, ◌≤◌,
}
use mathlib.Core.List.{Memᴰ}
use mathlib.Core.List.Memᴰ.{head}
use repo_mentor.Dict
use repo_mentor.Review.Types.{ReviewRecord, quick, beginner, mode_eq, status_eq}
use repo_mentor.Review.Repository.{Repository, empty, new_review, insert_review, initial_event}
use repo_mentor.Review.Repository.Listing.{
  ReviewListInput, BuiltIns, same, title_matches, is_listed, compare_reviews, listed, page_of,
  list_for_user,
}
use repo_mentor.Review.Repository.Listing.Pages.{
  read_pages, list_for_user-pages, list_for_user-shows,
}

listing : Unit {0}
unfolding empty new_review insert_review initial_event title_matches is_listed compare_reviews
    listed page_of list_for_user read_pages Dict.set Dict.get
listing = tt

-- Built-ins on texts without capitals, and a sort of texts in their order of creation.
abbrev built_ins : BuiltIns
built_ins = record {
  to_lower_case = λ s. s;
  contains = λ s t. s == t;
  locale_compare = λ s t. same;
  sort = λ order xs. xs;
}

abbrev review_of : String → String → ReviewRecord
review_of user_id id =
    new_review
      (record {
        id = none;
        user_id = user_id;
        source = "let x = 1";
        language = "ts";
        mode = quick;
        learner_level = beginner;
        title = none;
        context = none;
      })
      id 5

abbrev state : Repository ℕ
state =
    insert_review
      (insert_review (insert_review (empty none) (review_of "ann" "r1")) (review_of "bob" "r2"))
      (review_of "ann" "r3")

abbrev query : ℕ → ReviewListInput
query page = record {
  user_id = "ann";
  page = page;
  limit = 1;
  title = none;
  language = some "ts";
  mode = none;
  status = none;
  sort = none;
}

second_page :
    list_for_user built_ins state (query 2)
    ≡ record { items = review_of "ann" "r3" ∷ []; total = 2 }
unfolding listing
second_page = refl

total_fits : (list_for_user built_ins state (query 1)).total ≤ 2 * 1
unfolding listing
total_fits = omega arith

on_second_page : Memᴰ (review_of "ann" "r3") (list_for_user built_ins state (query 2)).items
unfolding listing
on_second_page = head refl

list_for_user-pages_example :
    read_pages built_ins state (query 1) 2 ≡ listed built_ins state (query 1)
list_for_user-pages_example = list_for_user-pages built_ins state (query 1) 2 total_fits

list_for_user-shows_example :
    Memᴰ (review_of "ann" "r3") (Dict.values state.reviews)
    × ((review_of "ann" "r3").user_id ≡ "ann")
    × ((review_of "ann" "r3").deleted_at ≡ none)
    × (is_listed built_ins (query 2) (review_of "ann" "r3") ≡ true)
    × (length (list_for_user built_ins state (query 2)).items ≤ 1)
list_for_user-shows_example =
    list_for_user-shows built_ins (λ order xs x m. m) state (query 2) (review_of "ann" "r3")
      on_second_page
