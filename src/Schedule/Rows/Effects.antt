-- ===== src/Schedule/Rows/Effects.antt =====
-- db/scheduled_session_operations.sql.go: which rows a statement changes, and how.
use baru_reso_headless_contr.Prelude.{
  ◌≡◌, ◌⊎◌, inl, inr, refl, ℕ, ◌+◌, ◌*◌, true, false, ◌&&◌, Option, none, some, [], ◌∷◌, String,
  str_eq, contains, ltb, if◌then◌else◌, In, here, there, Unique, Bool-cases, arith, Bool,
}
use baru_reso_headless_contr.Prelude.Table.{Each}
use baru_reso_headless_contr.Schedule.{
  Operation, pending, running, succeeded, failed, canceled, second,
}
use baru_reso_headless_contr.Schedule.Rows.{
  Rows, update_where, ids, chosen_rows, claimed, claim_due, mark_succeeded, mark_failed, requeue,
  cancel, release_stale, is_pending, is_running, is_due, is_stale,
}
use baru_reso_headless_contr.Schedule.Rows.Lifecycle.{
  Statement, claim, succeed, fail, put_back, cancel_pending, sweep_stale, step, RowsMove,
  step-RowsMove, chosen_rows-is_due,
}

-- The row of the id, if it is running.
abbrev running_of_id : String → Operation → Bool
running_of_id id o = str_eq o.id id && is_running o.status

-- The claim is older than the seconds.
abbrev claimed_too_long : ℕ → ℕ → Option ℕ → Bool
claimed_too_long seconds now none = false
claimed_too_long seconds now (some at) = ltb (at + seconds * second) now

-- What a statement makes of a row: a claim may take a due row, any other statement changes exactly
-- the rows that it is for.
abbrev pub Does : ℕ → Statement → Operation → Operation → Type 0
Does now (claim instance_id limit locked) o p =
    (p ≡ o)
    ⊎ ((is_due now o ≡ true)
        × (p ≡ record o { status = running; claimed_by = some instance_id; claimed_at = some now }))
Does now (succeed id) o p = p ≡ (
    if running_of_id id o
    then record o {
      status = succeeded;
      executed_at = some now;
      claimed_by = none;
      claimed_at = none;
      last_error = none;
    }
    else o)
Does now (fail id e) o p = p ≡ (
    if running_of_id id o
    then record o {
      status = failed;
      executed_at = some now;
      last_error = some e;
      claimed_by = none;
      claimed_at = none;
    }
    else o)
Does now (put_back id at) o p = p ≡ (
    if running_of_id id o
    then record o { status = pending; next_fire_at = at; claimed_by = none; claimed_at = none }
    else o)
Does now (cancel_pending id) o p =
    p ≡ (if str_eq o.id id && is_pending o.status then record o { status = canceled } else o)
Does now (sweep_stale seconds) o p = p ≡ (
    if is_running o.status && claimed_too_long seconds now o.claimed_at
    then record o { status = pending; claimed_by = none; claimed_at = none }
    else o)

update_where-Each :
    (R : Operation → Operation → Type 0) (chosen : Operation → Bool)
    (change : Operation → Operation) (rows : Rows)
    → ((o : Operation) → In o rows → R o (if chosen o then change o else o))
    → Each R rows (update_where chosen change rows)
unfolding update_where
update_where-Each R chosen change [] each = tt
update_where-Each R chosen change (o ∷ rows) each =
    (each o here, update_where-Each R chosen change rows (λ p at. each p (there at)))

stale_too_long :
    (seconds now : ℕ) (at : Option ℕ) → is_stale seconds now at ≡ claimed_too_long seconds now at
stale_too_long seconds now none = refl
stale_too_long seconds now (some at) = refl

claim_due-Does :
    (now : ℕ) (instance_id : String) (limit : ℕ) (locked : String → Bool) (rows : Rows)
    → Unique (ids rows)
    → Each
        (Does now (claim instance_id limit locked))
        rows
        (claim_due instance_id limit now locked rows).1
unfolding claim_due claimed
claim_due-Does now instance_id limit locked rows unique =
    update_where-Each (Does now (claim instance_id limit locked)) _ _ rows (λ o at.
      elim (Bool-cases (contains (ids (chosen_rows limit now locked rows)) o.id)) [
        | inl picked ↦ rw picked (inr (chosen_rows-is_due limit now locked at unique picked, refl))
        | inr left ↦ rw left (inl refl)
      ])

step-Each :
    (now : ℕ) (s : Statement) (rows : Rows)
    → Unique (ids rows)
    → Each (Does now s) rows (step now s rows)
unfolding step mark_succeeded mark_failed requeue cancel release_stale
step-Each now (claim instance_id limit locked) rows unique =
    claim_due-Does now instance_id limit locked rows unique
step-Each now (succeed id) rows unique =
    update_where-Each (Does now (succeed id)) _ _ rows (λ o at. refl)
step-Each now (fail id e) rows unique =
    update_where-Each (Does now (fail id e)) _ _ rows (λ o at. refl)
step-Each now (put_back id later) rows unique =
    update_where-Each (Does now (put_back id later)) _ _ rows (λ o at. refl)
step-Each now (cancel_pending id) rows unique =
    update_where-Each (Does now (cancel_pending id)) _ _ rows (λ o at. refl)
step-Each now (sweep_stale seconds) rows unique =
    update_where-Each (Does now (sweep_stale seconds)) _ _ rows
      (λ o at. ground (arith, stale_too_long seconds now o.claimed_at))

-- With unique ids, a statement keeps the rows, their ids and order, and moves each along the state
-- machine. A claim changes only due rows, to running ones of its instance. Finishing, failing and
-- putting back change exactly the running row of their id, cancelling the pending one, and a sweep
-- exactly the running rows that were claimed too long ago, with the columns that they set; every
-- other row and column is kept.
pub step-Does :
    (now : ℕ) (s : Statement) (rows : Rows)
    → Unique (ids rows)
    → RowsMove rows (step now s rows) × Each (Does now s) rows (step now s rows)
step-Does now s rows unique = (step-RowsMove now s rows unique, step-Each now s rows unique)
