-- ===== src/Schedule/Rows/Lifecycle.antt =====
-- db/scheduled_session_operations.sql.go: the states that a row goes through.
use baru_reso_headless_contr.Prelude.{
  ◌⊎◌, In, here, there, Unique, ℕ, ◌≡◌, refl, Bool, true, false, Option, none, some, List, [], ◌∷◌,
  String, str_eq, eq_iff, arith, Error, if◌then◌else◌, contains, take, eq_refl, suc, sym, subst,
  Bool-cases, inl, inr,
}
use baru_reso_headless_contr.Schedule.{
  Operation, OperationStatus, pending, running, succeeded, failed, canceled,
}
use baru_reso_headless_contr.Schedule.Rows.{
  Rows, update_where, ids, due, by_time, insert_by_time, chosen_rows, claimed, claim_due,
  mark_succeeded, mark_failed, requeue, cancel, release_stale, is_pending, is_running, is_due,
}

-- A statement of any instance, at a time.
pub data Statement : Type 0 where
  claim : String → ℕ → (String → Bool) → Statement
  succeed : String → Statement
  fail : String → Error → Statement
  put_back : String → ℕ → Statement
  cancel_pending : String → Statement
  sweep_stale : ℕ → Statement

unfoldable pub step : ℕ → Statement → Rows → Rows
step now (claim instance_id limit locked) rows = (claim_due instance_id limit now locked rows).1
step now (succeed id) rows = mark_succeeded id now rows
step now (fail id e) rows = mark_failed id e now rows
step now (put_back id at) rows = requeue id at rows
step now (cancel_pending id) rows = cancel id rows
step now (sweep_stale seconds) rows = release_stale seconds now rows

unfoldable pub steps : List (ℕ × Statement) → Rows → Rows
steps [] rows = rows
steps ((now, s) ∷ rest) rows = steps rest (step now s rows)

abbrev pub is_terminal : OperationStatus → Bool
is_terminal pending = false
is_terminal running = false
is_terminal _ = true

-- How a row may change: not at all, or along an arrow of the state machine.
pub data Moves : OperationStatus → OperationStatus → Type 0 where
  stays : {s : OperationStatus} → Moves s s
  is_claimed : Moves pending running
  is_canceled : Moves pending canceled
  has_succeeded : Moves running succeeded
  has_failed : Moves running failed
  is_released : Moves running pending

-- The rows keep their order and ids, and each moves along an arrow; a terminal row does not change.
pub data RowsMove : Rows → Rows → Type 0 where
  done : RowsMove [] []
  row :
      {o p : Operation} {rows rows' : Rows}
      → p.id ≡ o.id
      → Moves o.status p.status
      → (is_terminal o.status ≡ false) ⊎ (p ≡ o)
      → RowsMove rows rows'
      → RowsMove (o ∷ rows) (p ∷ rows')

-- A change that an update makes to the chosen rows of a table.
record Change (chosen : Operation → Bool) (change : Operation → Operation) (rows : Rows)
    : Type 0 where
  same_id : (o : Operation) → (change o).id ≡ o.id
  moves : (o : Operation) → In o rows → chosen o ≡ true → Moves o.status (change o).status
  live : (o : Operation) → In o rows → chosen o ≡ true → is_terminal o.status ≡ false

update_where-RowsMove :
    (chosen : Operation → Bool) (change : Operation → Operation) (rows : Rows)
    → Change chosen change rows
    → RowsMove rows (update_where chosen change rows)
unfolding update_where
update_where-RowsMove chosen change [] c = done
update_where-RowsMove chosen change (o ∷ rows) c =
    let rest = update_where-RowsMove chosen change rows (record {
      same_id = c.same_id;
      moves = λ p at picked. c.moves p (there at) picked;
      live = λ p at picked. c.live p (there at) picked;
    }) in
    elim (Bool-cases (chosen o)) [
      | inl picked ↦
          rw picked (row (c.same_id o) (c.moves o here picked) (inl (c.live o here picked)) rest)
      | inr skipped ↦ rw skipped (row refl stays (inr refl) rest)
    ]

is_running-eq : (s : OperationStatus) → is_running s ≡ true → s ≡ running
is_running-eq pending h = cc
is_running-eq running h = refl
is_running-eq succeeded h = cc
is_running-eq failed h = cc
is_running-eq canceled h = cc

pub is_pending-eq : (s : OperationStatus) → is_pending s ≡ true → s ≡ pending
is_pending-eq pending h = refl
is_pending-eq running h = cc
is_pending-eq succeeded h = cc
is_pending-eq failed h = cc
is_pending-eq canceled h = cc

-- An update of running rows that sets the status.
running-RowsMove :
    (t : OperationStatus) (chosen : Operation → Bool) (change : Operation → Operation) (rows : Rows)
    → Moves running t
    → ((o : Operation) → chosen o ≡ true → is_running o.status ≡ true)
    → ((o : Operation) → (change o).id ≡ o.id)
    → ((o : Operation) → (change o).status ≡ t)
    → RowsMove rows (update_where chosen change rows)
running-RowsMove t chosen change rows m only same_id sets =
    update_where-RowsMove chosen change rows (record {
      same_id = same_id;
      moves = λ o at picked. rw (sets o, is_running-eq o.status (only o picked)) m;
      live = λ o at picked. rw (is_running-eq o.status (only o picked)) refl;
    })

-- What is picked is due.
ids-due :
    (now : ℕ) (locked : String → Bool) (id : String) (rows : Rows)
    → contains (ids (due now locked rows)) id ≡ true
    → contains (ids rows) id ≡ true
unfolding due
ids-due now locked id [] h = h
ids-due now locked id (o ∷ rows) h = ground (arith, ids-due now locked id rows)

ids-insert_by_time :
    (id : String) (o : Operation) (rows : Rows)
    → contains (ids (insert_by_time o rows)) id ≡ contains (ids (o ∷ rows)) id
unfolding insert_by_time
ids-insert_by_time id o [] = refl
ids-insert_by_time id o (p ∷ rows) = ground (arith, ids-insert_by_time id o rows)

pub ids-by_time :
    (id : String) (rows : Rows) → contains (ids (by_time rows)) id ≡ contains (ids rows) id
unfolding by_time
ids-by_time id [] = refl
ids-by_time id (o ∷ rows) =
    ground (arith, ids-insert_by_time id o (by_time rows), ids-by_time id rows)

pub ids-take :
    (n : ℕ) (id : String) (rows : Rows)
    → contains (ids (take n rows)) id ≡ true
    → contains (ids rows) id ≡ true
ids-take ℕ.zero id rows h = cc
ids-take (suc n) id [] h = h
ids-take (suc n) id (o ∷ rows) h = ground (arith, ids-take n id rows)

contains-ids : {o : Operation} {rows : Rows} → In o rows → contains (ids rows) o.id ≡ true
contains-ids {o = o} here = rw (eq_refl o.id)
contains-ids (there at) = ground (arith, contains-ids at)

due-is_due :
    (now : ℕ) (locked : String → Bool) {o : Operation} {rows : Rows}
    → In o rows
    → Unique (ids rows)
    → contains (ids (due now locked rows)) o.id ≡ true
    → is_due now o ≡ true
unfolding due
due-is_due now locked {o = o} (here {xs = rows}) unique h =
    ground (arith, ids-due now locked o.id rows)
due-is_due now locked {o = o} (there {x = x} {xs = rows} at) unique h =
    ground (arith, due-is_due now locked at unique.1, contains-ids at, eq_iff x.id o.id)

-- What is chosen is due.
pub chosen_rows-is_due :
    (limit now : ℕ) (locked : String → Bool) {o : Operation} {rows : Rows}
    → In o rows
    → Unique (ids rows)
    → contains (ids (chosen_rows limit now locked rows)) o.id ≡ true
    → is_due now o ≡ true
unfolding chosen_rows
chosen_rows-is_due limit now locked {o = o} {rows = rows} at unique h =
    due-is_due now locked at unique (
      ground (
        arith,
        ids-take limit o.id (by_time (due now locked rows)) h,
        ids-by_time o.id (due now locked rows),
      ))

claim_due-RowsMove :
    (instance_id : String) (limit now : ℕ) (locked : String → Bool) (rows : Rows)
    → Unique (ids rows)
    → RowsMove rows (claim_due instance_id limit now locked rows).1
unfolding claim_due claimed
claim_due-RowsMove instance_id limit now locked rows unique =
    update_where-RowsMove _ _ rows (record {
      same_id = λ o. refl;
      moves = λ o at picked. rw (pending_at o at picked) is_claimed;
      live = λ o at picked. rw (pending_at o at picked) refl;
    })
  where
    pending_at :
        (o : Operation)
        → In o rows
        → contains (ids (chosen_rows limit now locked rows)) o.id ≡ true
        → o.status ≡ pending
    pending_at o at picked =
        is_pending-eq o.status
          (ground (arith, chosen_rows-is_due limit now locked at unique picked))

-- With unique ids, a statement keeps the rows and moves each along the state machine.
pub step-RowsMove :
    (now : ℕ) (s : Statement) (rows : Rows) → Unique (ids rows) → RowsMove rows (step now s rows)
unfolding step mark_succeeded mark_failed requeue cancel release_stale
step-RowsMove now (claim instance_id limit locked) rows unique =
    claim_due-RowsMove instance_id limit now locked rows unique
step-RowsMove now (succeed id) rows unique =
    running-RowsMove succeeded _ _ rows has_succeeded (λ o h. ground arith) (λ o. refl) (λ o. refl)
step-RowsMove now (fail id e) rows unique =
    running-RowsMove failed _ _ rows has_failed (λ o h. ground arith) (λ o. refl) (λ o. refl)
step-RowsMove now (put_back id at) rows unique =
    running-RowsMove pending _ _ rows is_released (λ o h. ground arith) (λ o. refl) (λ o. refl)
step-RowsMove now (cancel_pending id) rows unique = update_where-RowsMove _ _ rows (record {
  same_id = λ o. refl;
  moves = λ o at h. rw (is_pending-eq o.status (ground arith)) is_canceled;
  live = λ o at h. rw (is_pending-eq o.status (ground arith)) refl;
})
step-RowsMove now (sweep_stale seconds) rows unique =
    running-RowsMove pending _ _ rows is_released (λ o h. ground arith) (λ o. refl) (λ o. refl)

-- A row keeps its place, so it can be followed through steps.
ids-RowsMove : {rows rows' : Rows} → RowsMove rows rows' → ids rows' ≡ ids rows
ids-RowsMove done = refl
ids-RowsMove (row same m t rest) = ground (arith, same, ids-RowsMove rest)

abbrev pub row_with : String → Rows → Option Operation
row_with id [] = none
row_with id (o ∷ rows) = if str_eq o.id id then some o else row_with id rows

terminal-RowsMove :
    (id : String) (o : Operation) {rows rows' : Rows}
    → RowsMove rows rows'
    → row_with id rows ≡ some o
    → is_terminal o.status ≡ true
    → row_with id rows' ≡ some o
terminal-RowsMove id o done found terminal = found
terminal-RowsMove id o (row same m (inl live) rest) found terminal =
    ground (arith, same, terminal-RowsMove id o rest)
terminal-RowsMove id o (row same m (inr kept) rest) found terminal =
    ground (arith, same, terminal-RowsMove id o rest)

-- A row that has succeeded, failed or been cancelled stays exactly as it is, whatever statements
-- the instances and users run afterwards, in any order and at any times.
pub steps_terminal :
    (ss : List (ℕ × Statement)) (id : String) (o : Operation) (rows : Rows)
    → Unique (ids rows)
    → row_with id rows ≡ some o
    → is_terminal o.status ≡ true
    → row_with id (steps ss rows) ≡ some o
unfolding steps
steps_terminal [] id o rows unique found terminal = found
steps_terminal ((now, s) ∷ ss) id o rows unique found terminal =
    let moved = step-RowsMove now s rows unique in
    steps_terminal ss id o (step now s rows) (subst Unique (sym (ids-RowsMove moved)) unique)
      (terminal-RowsMove id o moved found terminal) terminal
