-- ===== src/Usage/Finalizer/Tests.antt =====
-- Finalizations of one reserved admission, and the theorems at them.
use repo_mentor.Prelude.{Option, String, [], err, none, ok, refl, some, ◌∷◌, ◌≡◌}
use repo_mentor.Dict
use repo_mentor.Text.{matches_hash}
use repo_mentor.Review.Types.{quick, beginner, pending}
use repo_mentor.Usage.Admission.{reserved}
use repo_mentor.Usage.Admission.Inputs.{text, number, is_hash}
use repo_mentor.Usage.Finalizer.{
  Finalizer, FinalizeReviewInput, ReviewFinalizerError, ReviewFinalizerSummary, finalize,
  finalize_checked, checked_admission, write, admit, new_review, owned_admission,
  assert_fingerprint_metadata, assert_admission_fingerprint, replayed, finalized, not_found,
  unavailable, replay, SeedAdmission, seed_admission, new_finalizer, find_summary, owned_review,
}
use repo_mentor.Usage.Finalizer.Laws.{finalize-atomic, finalize-replays, finalize_all}
use repo_mentor.Usage.Finalizer.Consistency.{
  reserve_call, finalize_call, step, run, run_new-IsConsistent, IsConsistent,
}

finalizer : Unit {0}
unfolding finalize finalize_checked checked_admission write admit new_review owned_admission
    assert_fingerprint_metadata assert_admission_fingerprint replay seed_admission new_finalizer
    find_summary owned_review finalize_all step run Dict.get Dict.set Dict.delete Dict.has is_hash
    matches_hash
finalizer = tt

abbrev digest : String
digest = "0123456789abcdef0123456789abcdef0123456789abcdef0123456789abcdef"

abbrev seed : SeedAdmission
seed = record {
  id = "adm1";
  user_id = "ann";
  review_id = "rev1";
  mode = quick;
  fingerprint_version = some 1;
  request_fingerprint_hash = some digest;
  updated_at = 5;
}

abbrev ann_input : FinalizeReviewInput
ann_input = record {
  user_id = "ann";
  admission_id = "adm1";
  review_id = "rev1";
  source = "let x = 1";
  language = "ts";
  mode = quick;
  learner_level = beginner;
  title = none;
  context = none;
  fingerprint_version = number 1;
  request_fingerprint_hash = text digest;
  now = 7;
}

abbrev bob_input : FinalizeReviewInput
bob_input = record ann_input { user_id = "bob" }

abbrev shown : ReviewFinalizerSummary
shown = record {
  id = "rev1";
  language = "ts";
  mode = quick;
  learner_level = beginner;
  title = none;
  context = none;
  status = pending;
  created_at = 7;
  updated_at = 7;
}

abbrev seeded : Option ReviewFinalizerError → Finalizer
seeded fail = seed_admission reserved (new_finalizer fail) seed

abbrev done : Finalizer
done = (finalize (seeded none) ann_input).0

ann_returns :
    finalize (seeded none) ann_input ≡ (done, ok (record { kind = finalized; summary = shown }))
unfolding finalizer
ann_returns = refl

ann_finds : find_summary done "ann" "rev1" ≡ some shown
unfolding finalizer
ann_finds = refl

bob_is_refused : finalize done bob_input ≡ (done, err not_found)
unfolding finalizer
bob_is_refused = refl

abbrev failed : Finalizer
failed = (finalize (seeded (some unavailable)) ann_input).0

ann_fails : finalize (seeded (some unavailable)) ann_input ≡ (failed, err unavailable)
unfolding finalizer
ann_fails = refl

finalize-replays_example : finalize (finalize_all done (bob_input ∷ ann_input ∷ [])) ann_input ≡ (
  finalize_all done (bob_input ∷ ann_input ∷ []),
  ok (record { kind = replayed; summary = shown }),
)
finalize-replays_example =
    finalize-replays (seeded none) done ann_input (record { kind = finalized; summary = shown })
      (bob_input ∷ ann_input ∷ []) ann_returns

finalize-atomic_example :
    ((k : String)
      → Dict.get k failed.admissions ≡ Dict.get k (seeded (some unavailable)).admissions)
    × ((k : String) → Dict.get k failed.reviews ≡ Dict.get k (seeded (some unavailable)).reviews)
finalize-atomic_example =
    finalize-atomic (seeded (some unavailable)) failed ann_input unavailable ann_fails

run_new-IsConsistent_example : IsConsistent (
    run
      (new_finalizer none)
      (reserve_call seed ∷ finalize_call ann_input ∷ finalize_call bob_input ∷ []))
run_new-IsConsistent_example =
    run_new-IsConsistent none
      (reserve_call seed ∷ finalize_call ann_input ∷ finalize_call bob_input ∷ [])
