-- ===== src/Schedule/Rows/Claims.antt =====
-- db/scheduled_session_operations.sql.go: what ClaimDueScheduledSessionOperations hands out.
use baru_reso_headless_contr.Prelude.{All, ◌&&◌, not, str_eq}
use baru_reso_headless_contr.Schedule.{Operation}
use baru_reso_headless_contr.Schedule.Rows.{
  is_pending, mark_succeeded, mark_failed, requeue, cancel,
}
use baru_reso_headless_contr.Schedule.Rows.Lifecycle.{
  Statement, claim, succeed, fail, put_back, cancel_pending, sweep_stale, step, steps,
}
use baru_reso_headless_contr.Prelude.{
  ℕ, ◌≡◌, ◌≤◌, refl, Bool, true, false, List, [], ◌∷◌, String, eq_iff, arith, contains, map, length,
  take, length-take-le, Bool-cases, inl, inr,
}
use baru_reso_headless_contr.Schedule.Rows.{
  Rows, update_where, ids, due, by_time, chosen_rows, claimed, claim_due,
}
use baru_reso_headless_contr.Schedule.Rows.Lifecycle.{ids-by_time, ids-take}

ids-claimed :
    (instance_id : String) (now : ℕ) (rows : Rows)
    → ids (map (claimed instance_id now) rows) ≡ ids rows
unfolding claimed
ids-claimed instance_id now [] = refl
ids-claimed instance_id now (o ∷ rows) = ground (arith, ids-claimed instance_id now rows)

length-claimed :
    (instance_id : String) (now : ℕ) (rows : Rows)
    → length (map (claimed instance_id now) rows) ≡ length rows
length-claimed instance_id now [] = refl
length-claimed instance_id now (o ∷ rows) = ground (arith, length-claimed instance_id now rows)

-- No row of the id waits.
abbrev NoneWaits : String → Rows → Type 0
NoneWaits id = All (λ (o : Operation). (str_eq o.id id && is_pending o.status) ≡ false)

-- What does not wait is due for nobody.
due-NoneWaits :
    (id : String) (now : ℕ) (locked : String → Bool) (rows : Rows)
    → NoneWaits id rows
    → contains (ids (due now locked rows)) id ≡ false
unfolding due
due-NoneWaits id now locked [] h = refl
due-NoneWaits id now locked (o ∷ rows) h = ground (arith, h.0, due-NoneWaits id now locked rows h.1)

update_where-NoneWaits :
    (id : String) (chosen : Operation → Bool) (change : Operation → Operation) (rows : Rows)
    → ((o : Operation)
        → chosen o ≡ true
        → (str_eq (change o).id id && is_pending (change o).status) ≡ false)
    → NoneWaits id rows
    → NoneWaits id (update_where chosen change rows)
unfolding update_where
update_where-NoneWaits id chosen change [] changed h = tt
update_where-NoneWaits id chosen change (o ∷ rows) changed h =
    (ground (arith, h.0, changed o), update_where-NoneWaits id chosen change rows changed h.1)

-- A claim leaves none of the rows that it picked waiting.
claim-NoneWaits :
    (picked : List String) (instance_id id : String) (now : ℕ) (rows : Rows)
    → contains picked id ≡ true
    → NoneWaits id (update_where (λ o. contains picked o.id) (claimed instance_id now) rows)
unfolding update_where claimed
claim-NoneWaits picked instance_id id now [] h = tt
claim-NoneWaits picked instance_id id now (o ∷ rows) h =
    (ground (arith, h, eq_iff o.id id), claim-NoneWaits picked instance_id id now rows h)

-- The statement puts no row of the id back: it is not a requeue of it, and not a sweep.
abbrev pub leaves_claimed : String → Statement → Bool
leaves_claimed id (put_back other at) = not (str_eq other id)
leaves_claimed id (sweep_stale seconds) = false
leaves_claimed id _ = true

step-NoneWaits :
    (id : String) (now : ℕ) (s : Statement) (rows : Rows)
    → leaves_claimed id s ≡ true
    → NoneWaits id rows
    → NoneWaits id (step now s rows)
unfolding step claim_due claimed mark_succeeded mark_failed requeue cancel
step-NoneWaits id now (claim instance_id limit locked) rows leaves h =
    update_where-NoneWaits id _ _ rows (λ o picked. ground arith) h
step-NoneWaits id now (succeed other) rows leaves h =
    update_where-NoneWaits id _ _ rows (λ o picked. ground arith) h
step-NoneWaits id now (fail other e) rows leaves h =
    update_where-NoneWaits id _ _ rows (λ o picked. ground arith) h
step-NoneWaits id now (put_back other at) rows leaves h =
    update_where-NoneWaits id _ _ rows
      (λ o picked.
        ground (arith, picked, leaves, eq_iff o.id other, eq_iff o.id id, eq_iff other id))
      h
step-NoneWaits id now (cancel_pending other) rows leaves h =
    update_where-NoneWaits id _ _ rows (λ o picked. ground arith) h
step-NoneWaits id now (sweep_stale seconds) rows leaves h = cc

steps-NoneWaits :
    (id : String) (ss : List (ℕ × Statement)) (rows : Rows)
    → All (λ (x : ℕ × Statement). leaves_claimed id x.1 ≡ true) ss
    → NoneWaits id rows
    → NoneWaits id (steps ss rows)
unfolding steps
steps-NoneWaits id [] rows leave h = h
steps-NoneWaits id ((now, s) ∷ ss) rows leave h =
    steps-NoneWaits id ss (step now s rows) leave.1 (step-NoneWaits id now s rows leave.0 h)

-- `contains` of a part.
not_in_part :
    (limit now : ℕ) (locked : String → Bool) (id : String) (rows : Rows)
    → contains (ids (due now locked rows)) id ≡ false
    → contains (ids (chosen_rows limit now locked rows)) id ≡ false
unfolding chosen_rows
not_in_part limit now locked id rows h =
    elim (Bool-cases (contains (ids (take limit (by_time (due now locked rows)))) id)) [
      | inl is_in ↦ ground (
        arith,
        ids-take limit id (by_time (due now locked rows)) is_in,
        ids-by_time id (due now locked rows),
      )
      | inr absent ↦ absent
    ]

claimed_bounded :
    (first : String) (limit now : ℕ) (locked : String → Bool) (rows : Rows)
    → length (map (claimed first now) (chosen_rows limit now locked rows)) ≤ limit
unfolding chosen_rows
claimed_bounded first limit now locked rows =
    rw (length-claimed first now (take limit (by_time (due now locked rows))))
      (length-take-le limit (by_time (due now locked rows)))

-- A claim hands out at most as many rows as asked, and no row that it hands out is handed out by a
-- later claim, of the same or another instance, whatever statements run in between, as long as none
-- of them requeues the row or sweeps up old claims.
pub claim_due_exclusive :
    (first second id : String) (limit limit' now later : ℕ) (locked locked' : String → Bool)
    (between : List (ℕ × Statement)) (rows : Rows)
    → contains (ids (claim_due first limit now locked rows).0) id ≡ true
    → All (λ (x : ℕ × Statement). leaves_claimed id x.1 ≡ true) between
    → (length (claim_due first limit now locked rows).0 ≤ limit)
      × (contains
            (ids
              (claim_due second limit' later locked'
                (steps between (claim_due first limit now locked rows).1)).0)
            id
          ≡ false)
unfolding claim_due
claim_due_exclusive first second id limit limit' now later locked locked' between rows h leave =
    let picked = chosen_rows limit now locked rows in
    let after = update_where (λ o. contains (ids picked) o.id) (claimed first now) rows in
    let mine : contains (ids picked) id ≡ true = rw (ids-claimed first now picked) at h in
    let none_waits =
      steps-NoneWaits id between after leave
        (claim-NoneWaits (ids picked) first id now rows mine) in
    (
      claimed_bounded first limit now locked rows,
      rw (ids-claimed second later (chosen_rows limit' later locked' (steps between after))) (
          not_in_part limit' later locked' id (steps between after)
            (due-NoneWaits id later locked' (steps between after) none_waits)),
    )
