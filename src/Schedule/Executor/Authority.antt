-- ===== src/Schedule/Executor/Authority.antt =====
-- worker/scheduled_operation_executor.go: for whom and when the executor acts.
use baru_reso_headless_contr.Prelude.{
  ℕ, ◌≡◌, ◌≢◌, refl, Bool, true, false, Option, none, some, ◌∷◌, String, str_eq, eq_iff, Result, ok,
  err, arith, canceled, deadline_exceeded, Result-cases, inl, inr, Bool-cases,
}
use baru_reso_headless_contr.Schedule.{
  Operation, Deps, Trigger, Action, SessionCall, decode_trigger, evaluate, decode_action, request,
}
use baru_reso_headless_contr.Schedule.Rows.{Rows, mark_succeeded, mark_failed, requeue}
use baru_reso_headless_contr.Schedule.Executor.{
  World, Verdict, leave, fail_with, requeue_at, run_as, acting, evaluated, triggered, user_checked,
  check_user, decide_for, decide, settle, perform, after_call, store, execute_one,
}

-- An operation may act as a user.
pub record MayRun (deps : Deps) (now : ℕ) (o : Operation) (user : String) (a : Action)
    : Type 0 where
  pub creator : o.created_by ≡ some user
  pub named : user ≢ ""
  pub exists : check_user deps.user_checker user ≡ ok true
  pub trigger : Trigger
  pub decoded : decode_trigger deps.json o.trigger_type o.trigger_config ≡ ok trigger
  pub next : ℕ
  pub ready : evaluate deps now trigger ≡ ok (true, next)
  pub action : decode_action deps.json o.operation_type o.operation_payload ≡ ok a

module _ (deps : Deps) (now : ℕ) (o : Operation) where
  abbrev IsReady : Verdict → Type 0
  IsReady (run_as user a) = MayRun deps now o user a
  IsReady _ = Unit

  module _ (user : String) (creator : o.created_by ≡ some user) (named : user ≢ "")
      (exists : check_user deps.user_checker user ≡ ok true) where
    evaluated-IsReady :
        (t : Trigger) (r : Result (Bool × ℕ))
        → decode_trigger deps.json o.trigger_type o.trigger_config ≡ ok t
        → evaluate deps now t ≡ r
        → IsReady (evaluated deps now user o r)
    unfolding evaluated acting
    evaluated-IsReady t (err e) decoded h = tt
    evaluated-IsReady t (ok (false, next)) decoded h = tt
    evaluated-IsReady t (ok (true, next)) decoded h =
        elim (Result-cases (decode_action deps.json o.operation_type o.operation_payload)) [
          | inl (a, action) ↦ rw action (record {
            creator = creator;
            named = named;
            exists = exists;
            trigger = t;
            decoded = decoded;
            next = next;
            ready = h;
            action = action;
          })
          | inr (e, failing) ↦ rw failing tt
        ]

    triggered-IsReady :
        (r : Result Trigger)
        → decode_trigger deps.json o.trigger_type o.trigger_config ≡ r
        → IsReady (triggered deps now user o r)
    unfolding triggered
    triggered-IsReady (err e) h = tt
    triggered-IsReady (ok t) h = evaluated-IsReady t (evaluate deps now t) h refl

  user_checked-IsReady :
      (user : String) (r : Result Bool)
      → o.created_by ≡ some user
      → user ≢ ""
      → check_user deps.user_checker user ≡ r
      → IsReady (user_checked deps now user o r)
  unfolding user_checked
  user_checked-IsReady user (err canceled) creator named h = tt
  user_checked-IsReady user (err deadline_exceeded) creator named h = tt
  user_checked-IsReady user (err e) creator named h = tt
  user_checked-IsReady user (ok false) creator named h = tt
  user_checked-IsReady user (ok true) creator named h =
      triggered-IsReady user creator named h
        (decode_trigger deps.json o.trigger_type o.trigger_config) refl

  decide_for-IsReady :
      (creator : Option String) → o.created_by ≡ creator → IsReady (decide_for deps now o creator)
  unfolding decide_for
  decide_for-IsReady none e = tt
  decide_for-IsReady (some user) e = elim (Bool-cases (str_eq user "")) [
    | inl unnamed ↦ rw unnamed tt
    | inr named ↦ rw named (
        user_checked-IsReady user (check_user deps.user_checker user) e
          (λ same. ground (arith, eq_iff user "")) refl)
  ]

  decide-IsReady : IsReady (decide deps now o)
  unfolding decide
  decide-IsReady = decide_for-IsReady o.created_by refl

-- The calls after an execution: as before, or one more, which the operation may make.
pub data Called (deps : Deps) (now : ℕ) (o : Operation) (w w' : World) : Type 0 where
  none_made : w'.calls ≡ w.calls → Called deps now o w w'
  one_made :
      (user : String) (a : Action) (c : SessionCall)
      → MayRun deps now o user a
      → request deps.json a ≡ ok c
      → w'.calls ≡ (o.id, user, c) ∷ w.calls
      → Called deps now o w w'

module _ (deps : Deps) (stores : Bool) (now : ℕ) where
  calls-store : (b : Bool) (write : Rows → Rows) (w : World) → (store b write w).calls ≡ w.calls
  unfolding store
  calls-store true write w = refl
  calls-store false write w = refl

  calls-after_call :
      (id : String) (r : Result (Unit {0})) (w : World)
      → (after_call stores now id r w).calls ≡ w.calls
  unfolding after_call
  calls-after_call id (ok u) w = calls-store stores (mark_succeeded id now) w
  calls-after_call id (err e) w = calls-store stores (mark_failed id e now) w

  perform-Called :
      (o : Operation) (user : String) (a : Action) (r : Result SessionCall) (w : World)
      → MayRun deps now o user a
      → request deps.json a ≡ r
      → Called deps now o w (perform deps stores now o.id user r w)
  unfolding perform
  perform-Called o user a (err e) w may h =
      none_made (calls-store stores (mark_failed o.id e now) w)
  perform-Called o user a (ok c) w may h =
      one_made user a c may h (
        calls-after_call o.id (deps.operate user c)
          (record w { calls = (o.id, user, c) ∷ w.calls }))

  settle-Called :
      (o : Operation) (v : Verdict) (w : World)
      → IsReady deps now o v
      → Called deps now o w (settle deps stores now o.id v w)
  unfolding settle
  settle-Called o leave w may = none_made refl
  settle-Called o (fail_with e) w may = none_made (calls-store stores (mark_failed o.id e now) w)
  settle-Called o (requeue_at at) w may = none_made (calls-store stores (requeue o.id at) w)
  settle-Called o (run_as user a) w may = perform-Called o user a (request deps.json a) w may refl

  -- An execution makes at most one call of the session usecase, and makes it only as the user who
  -- created the operation, who is named and whom the checker found, when the operation's own
  -- trigger is ready, and with what its own payload asks for.
  pub execute_one-Called :
      (o : Operation) (w : World) → Called deps now o w (execute_one deps stores now o w)
  unfolding execute_one
  execute_one-Called o w = settle-Called o (decide deps now o) w (decide-IsReady deps now o)
