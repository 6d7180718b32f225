-- ===== src/Lib.antt =====
-- Verification library of the RepoMentor API (apps/api/src/modules).
--
-- The parts and how they interact:
-- - Prelude, with Prelude/Tests, Prelude/Lists and Prelude/Results: Boolean tests, equality as an
--   instance argument, lists measured by native numbers, and calls that may throw. Dict is the built-in
--   `Map`, in the order of insertion; Text has the character classes of the patterns that the API checks.
-- - Ai/Pricing: apps/api/src/modules/ai/ai-pricing.ts. A review's usage is priced here before it is
--   stored (Review/Persistence).
-- - Ai/Service: ai/ai-review.service.ts, the loop that calls the provider and retries.
-- - Auth and Auth/Repository: auth/auth.types.ts and auth/in-memory-auth.repository.ts, users, sessions and
--   refresh tokens. Loop is the loop that revokes the sessions of a user.
-- - Review/Types, Review/Policy, Review/Persistence: review/review.types.ts, review/review.policy.ts and
--   review/processing/review-processing.policy.ts, review/review-result.persistence.ts.
-- - Review/Repository: review/in-memory-review.repository.ts, with the methods that write a stored review in
--   Review/Repository/Writes and `listForUser` in Review/Repository/Listing. Calls are sequences of its
--   methods; Claims is about the processing generation, which a worker takes with a claim and shows when
--   it finalizes. Review/Sample has the inputs that the tests of reviews share.
-- - Ai/Errors and Review/Processing: ai/ai.errors.ts, review/processing/review-processing.types.ts and
--   review-processing.errors.ts; Service: the methods of review/processing/review-processing.service.ts on a
--   claim, which call Review/Repository; Service/Run: `processWithLock`, `process` and `getResult`;
--   Keepalive: the `ReviewLockKeepalive` of that file, whose loss of the lock is an event of a run of Service;
--   Coordinator: review/processing/review-run.coordinator.ts, which starts and cancels runs.
-- - Usage/Admission: usage/quota-admission.types.ts and quota-admission.errors.ts; Inputs:
--   usage/quota-admission.hash.ts and the assertions of usage/quota-admission.fingerprint.ts, whose message is
--   in Fingerprint; Repository: usage/in-memory-quota-admission.repository.ts; Service:
--   usage/quota-admission.service.ts, which checks an intent and calls the repository.
-- - Usage/Finalizer: usage/review-finalizer.types.ts, usage/review-finalizer.errors.ts and
--   usage/in-memory-review-finalizer.ts, which turns a reserved admission and its review into an
--   admitted one in one step.
--
-- State and operations: a class is a record of its maps, and a method is a function of the same name (in
-- this language's spelling) from the state to the new state and the result. A method that throws before it
-- writes returns an error value in place of the state; one that throws later, or not at all, returns
-- both. A method with several early returns is cut at them into functions that the method composes. Dates
-- are their milliseconds. The copies that the classes make of records are not seen in values. An `await`
-- inside these classes has nothing to wait for, so a method is one step.
--
-- Interleavings: the processing service waits, so its methods are functions on a World (Review/Processing/World)
-- that holds the repository, the caller's signal, the state of the keepalive and of the lease fence, and the
-- future: what others do at each `await`, as lists of events. An event is a call of the repository, an
-- abort, the loss of the lock, the step of the fence's call, or the passing of time, so the theorems about
-- every world are about every interleaving of such events. Triple has the rules for what a method leaves, Service/Flow and
-- Service/Lock carry them through a run.
--
-- Parameters: the schemas of zod, the digest and the normal form of Unicode, the calendar day of a date, the
-- random texts of new ids, `trim`, the settling of the lock's calls, of the AI review service and of the two races
-- of a processing, and the sort and text functions of the review list. The length of a text
-- is that of its code points, which is the length in the source for every text that the patterns admit.
--
-- Bounds and fuel: numbers are exact in the safe range and the price is computed on big integers. The one
-- function on fuel is the base-36 printing of a generated id (Review/Repository), whose fuel is one
-- more than the number; Review/Repository/Identifiers has the lemma that any such fuel prints the same.
-- Loops over lists are structural, and so is the loop of Ai/Service on the attempts that are left.
--
-- Not modelled: the adapters over a database, Redis and the providers, which are third-party systems, the
-- HTTP controllers and modules, and the web application. The Redis scripts and the services of auth and
-- reviews are not modelled either.
pub mod Prelude
pub mod Dict
pub mod Text
pub mod Ai
pub mod Auth
pub mod Review
pub mod Usage
