-- ===== src/Jobs/Executor/Completion.antt =====
-- worker/async_job_executor.go: how an execution ends.
use baru_reso_headless_contr.Jobs.Executor.Endings.{
  Calls, MayAct, CutShort, cut_short, Failure, nobody, unnamed, unchecked, gone, not_prepared,
  call_failed, call_panicked, not_marshalled, Success, FailedRow, SucceededRow, RowsSettled,
  mark_failed-RowsSettled, mark_succeeded-RowsSettled,
}
use baru_reso_headless_contr.Prelude.Table.{Each}
use baru_reso_headless_contr.Jobs.{Level}
use baru_reso_headless_contr.Jobs.Executor.Telling.{Told, publish_completion-Told}
use baru_reso_headless_contr.Prelude.{
  ℕ, ◌≡◌, ◌≢◌, ◌⊎◌, inl, inr, refl, ap, ◌∙◌, Bool, true, false, Option, none, some, [], ◌∷◌, ◌++◌,
  String, str_eq, eq_iff, Result, ok, err, Error, other, canceled, deadline_exceeded, arith,
  Bool-cases, All,
}
use baru_reso_headless_contr.Jobs.{
  AsyncJob, JobCall, Attempt, done, failing, panicking, Message, failed_with, success, error,
  Backend,
}
use baru_reso_headless_contr.Jobs.Rows.{Rows, mark_succeeded, mark_failed, is_running_row}
use baru_reso_headless_contr.Jobs.Dispatch.{prepare, finish}
use baru_reso_headless_contr.Jobs.Dispatch.Preparing.{Prepares, prepare-Prepares-of, finish-Reports}
use baru_reso_headless_contr.Jobs.Executor.{
  World, publish_completion, stored, mark_failed_and_tell, succeed, after_call, run_as,
  user_checked, check_user, execute_for, execute_one,
}

module _ (b : Backend) (stores : Bool) (now : ℕ) (j : AsyncJob) (w : World) where
  -- What the creator is told of the job.
  abbrev pub ToldOf : Message → Level → World → Type 0
  ToldOf message level w' =
      Told j.created_by (b.event_text (record { job_id = j.id; level = level; message = message }))
        w.bus w'.bus

  -- The three ways in which an execution ends.
  pub data Executed (w' : World) : Type 0 where
    put_off : CutShort b j → w' ≡ w → Executed w'
    has_failed :
        (e : Error) (made : Calls)
        → Failure b j e made
        → RowsSettled (FailedRow j.id e now) stores w.jobs w'.jobs
        → ToldOf (failed_with e) error w'
        → w'.calls ≡ made ++ w.calls
        → Executed w'
    has_succeeded :
        (message : Message) (text : String) (made : Calls)
        → Success b j message text made
        → RowsSettled (SucceededRow j.id text now) stores w.jobs w'.jobs
        → ToldOf message success w'
        → w'.calls ≡ made ++ w.calls
        → Executed w'

  failed_end :
      (e : Error) (made : Calls)
      → Failure b j e made
      → Executed (record {
        jobs = stored stores (mark_failed j.id e now) w.jobs;
        bus = publish_completion b j (failed_with e) error w.bus;
        calls = made ++ w.calls;
      })
  failed_end e made why =
      has_failed e made why (mark_failed-RowsSettled stores j.id e now w.jobs)
        (publish_completion-Told b j (failed_with e) error w.bus) refl

  succeeded_end :
      (message : Message) (text : String) (made : Calls)
      → Success b j message text made
      → Executed (record {
        jobs = stored stores (mark_succeeded j.id text now) w.jobs;
        bus = publish_completion b j message success w.bus;
        calls = made ++ w.calls;
      })
  succeeded_end message text made why =
      has_succeeded message text made why (mark_succeeded-RowsSettled stores j.id text now w.jobs)
        (publish_completion-Told b j message success w.bus) refl

  module _ (user : String) (may : MayAct b j user) where
    after_call-Executed :
        (c : JobCall) (a : Attempt)
        → Prepares b j (ok c)
        → b.operate user c ≡ a
        → Executed (after_call b stores now j c a (record w { calls = (j.id, user, c) ∷ w.calls }))
    unfolding after_call mark_failed_and_tell succeed
    after_call-Executed c (failing e) prepared h =
        failed_end e ((j.id, user, c) ∷ []) (call_failed user c may prepared h)
    after_call-Executed c (panicking m) prepared h =
        failed_end (other "handler panicked") ((j.id, user, c) ∷ [])
          (call_panicked user c m may prepared h)
    after_call-Executed c (done id) prepared h = go (b.json.marshal_result (finish c id).0) refl
      where
        go :
            (r : Result String)
            → b.json.marshal_result (finish c id).0 ≡ r
            → Executed (
                succeed b stores now j
                  (finish c id).1
                  r
                  (record w { calls = (j.id, user, c) ∷ w.calls }))
        go (err e) marshalled = failed_end e ((j.id, user, c) ∷ []) (
            not_marshalled user c id (finish c id).0 (finish c id).1 may prepared h
              (finish-Reports c id) marshalled)
        go (ok text) marshalled =
            succeeded_end (finish c id).1 text ((j.id, user, c) ∷ []) (record {
              user = user;
              may = may;
              c = c;
              prepared = prepared;
              id = id;
              went_well = h;
              result = (finish c id).0;
              reported = finish-Reports c id;
              marshalled = marshalled;
              only_call = refl;
            })

    run_as-Executed :
        (r : Result JobCall) → prepare b j ≡ r → Executed (run_as b stores now j user r w)
    unfolding run_as mark_failed_and_tell
    run_as-Executed (err e) h =
        failed_end e [] (not_prepared user may (prepare-Prepares-of b j (err e) h))
    run_as-Executed (ok c) h =
        after_call-Executed c (b.operate user c) (prepare-Prepares-of b j (ok c) h) refl

  user_checked-Executed :
      (user : String) (r : Result Bool)
      → j.created_by ≡ some user
      → user ≢ ""
      → check_user b.user_checker user ≡ r
      → Executed (user_checked b stores now j user r w)
  unfolding user_checked mark_failed_and_tell
  user_checked-Executed user (err canceled) creator named h =
      put_off (cut_short user canceled creator (inl refl) h) refl
  user_checked-Executed user (err deadline_exceeded) creator named h =
      put_off (cut_short user deadline_exceeded creator (inr refl) h) refl
  user_checked-Executed user (err e) creator named h = failed_end e [] (unchecked user creator h)
  user_checked-Executed user (ok false) creator named h =
      failed_end (other "created_by user does not exist") [] (gone user creator h)
  user_checked-Executed user (ok true) creator named h =
      run_as-Executed user (record { creator = creator; named = named; exists = h }) (prepare b j)
        refl

  execute_for-Executed :
      (creator : Option String)
      → j.created_by ≡ creator
      → Executed (execute_for b stores now j creator w)
  unfolding execute_for mark_failed_and_tell
  execute_for-Executed none h = failed_end (other "job has no created_by") [] (nobody h)
  execute_for-Executed (some user) h = elim (Bool-cases (str_eq user "")) [
    | inl unnamed_user ↦ rw unnamed_user (
        failed_end (other "job has no created_by") []
          (unnamed (h ∙ ap some ((eq_iff user "").0 unnamed_user))))
    | inr named ↦ rw named (
        user_checked-Executed user (check_user b.user_checker user) h
          (λ same. ground (arith, eq_iff user "")) refl)
  ]

  -- An execution ends in one of three ways. It is put off, with nothing changed, only if the check
  -- of the creator was cut short. It fails for one of eight reasons, keeps the error in the row, and
  -- its creator, if it has one, gets an event with the failure. Or the creator exists, the payload
  -- was read, the call went well: then the row keeps the result and the creator gets an event that
  -- says what was done. An event is the newest unread one of every subscription of the creator, and
  -- of no other. The settling write may be refused and the creator is told all the same; at most one
  -- call is made, as the creator.
  pub execute_one-Executed : Executed (execute_one b stores now j w)
  unfolding execute_one
  execute_one-Executed = execute_for-Executed j.created_by refl

-- No row of the job is running.
abbrev pub IsSettled : String → Rows → Type 0
IsSettled id = All (λ a. is_running_row id a ≡ false)

Each-IsSettled :
    (R : AsyncJob → AsyncJob → Type 0) (id : String) (rows rows' : Rows)
    → ((a a' : AsyncJob) → R a a' → is_running_row id a' ≡ false)
    → Each R rows rows'
    → IsSettled id rows'
Each-IsSettled R id [] [] settles each = tt
Each-IsSettled R id (a ∷ rows) (a' ∷ rows') settles each =
    (settles a a' each.0, Each-IsSettled R id rows rows' settles each.1)
Each-IsSettled R id [] (a' ∷ rows') settles each = elim each [ ]
Each-IsSettled R id (a ∷ rows) [] settles each = elim each [ ]

-- Where the database takes the settling write, an execution leaves no row of its job running,
-- unless the check of the creator was cut short: then it changes nothing.
pub execute_one-IsSettled :
    (b : Backend) (now : ℕ) (j : AsyncJob) (w : World)
    → (CutShort b j × (execute_one b true now j w ≡ w))
      ⊎ IsSettled j.id (execute_one b true now j w).jobs
execute_one-IsSettled b now j w = go (execute_one-Executed b true now j w)
  where
    go :
        {w' : World}
        → Executed b true now j w w'
        → (CutShort b j × (w' ≡ w)) ⊎ IsSettled j.id w'.jobs
    go (put_off why same) = inl (why, same)
    go {w'} (has_failed e made why rows told same) = inr (
        Each-IsSettled (FailedRow j.id e now) j.id w.jobs w'.jobs (λ a a' h. ground arith)
          (rows.taken refl))
    go {w'} (has_succeeded message text made why rows told same) = inr (
        Each-IsSettled (SucceededRow j.id text now) j.id w.jobs w'.jobs (λ a a' h. ground arith)
          (rows.taken refl))
