-- ===== src/Jobs/Executor/Telling.antt =====
-- worker/async_job_executor.go: who is told of the end of a job.
use baru_reso_headless_contr.Prelude.{
  ◌≡◌, ◌≢◌, ◌⊎◌, inl, inr, refl, ap, true, false, Option, none, some, List, [], ◌∷◌, ◌++◌, String,
  str_eq, eq_iff, ltb, length, drop, Bool-cases, arith, str_eq→eq,
}
use baru_reso_headless_contr.Prelude.Table.{Each}
use baru_reso_headless_contr.Notification.{MemoryBus, Subscriber, publish_to, send_to, bus_send}
use baru_reso_headless_contr.Jobs.{AsyncJob, Message, Level, Backend}
use baru_reso_headless_contr.Jobs.Executor.{publish_to_creator, publish_completion}

-- The event is the newest unread one, after those that were unread, of which a full buffer of 64
-- loses the oldest.
abbrev pub Received : String → List String → List String → Type 0
Received ev ch ch' =
    ((ltb (length ch) 64 ≡ true) × (ch' ≡ ch ++ (ev ∷ [])))
    ⊎ ((ltb (length ch) 64 ≡ false) × (ch' ≡ drop 1 ch ++ (ev ∷ [])))

-- A subscription of the user has received the event, another is as it was.
pub record Served (user ev : String) (s t : Subscriber) : Type 0 where
  pub same_id : t.id ≡ s.id
  pub same_user : t.user_id ≡ s.user_id
  pub mine : s.user_id ≡ user → Received ev s.ch t.ch
  pub others : s.user_id ≢ user → t ≡ s

-- Every subscription of the creator, if the job has one, has received the event.
pub data Told (creator : Option String) (ev : String) (bus bus' : MemoryBus) : Type 0 where
  nobody_to_tell : (creator ≡ none) ⊎ (creator ≡ some "") → bus' ≡ bus → Told creator ev bus bus'
  user_told :
      (user : String)
      → creator ≡ some user
      → user ≢ ""
      → bus'.next_id ≡ bus.next_id
      → Each (Served user ev) bus.subs bus'.subs
      → Told creator ev bus bus'

bus_send-Received : (ev : String) (ch : List String) → Received ev ch (bus_send ev ch)
unfolding bus_send
bus_send-Received ev ch = elim (Bool-cases (ltb (length ch) 64)) [
  | inl room ↦ inl (room, rw room refl)
  | inr full ↦ inr (full, rw full refl)
]

send_to-Served :
    (user ev : String) (subs : List Subscriber)
    → Each (Served user ev) subs (send_to (λ u. str_eq u user) ev subs)
unfolding send_to
send_to-Served user ev [] = tt
send_to-Served user ev (s ∷ subs) = (
  elim (Bool-cases (str_eq s.user_id user)) [
    | inl mine ↦ rw mine (record {
      same_id = refl;
      same_user = refl;
      mine = λ _. bus_send-Received ev s.ch;
      others = λ apart. absurd (apart (str_eq→eq s.user_id user mine));
    })
    | inr other ↦ rw other (record {
      same_id = refl;
      same_user = refl;
      mine = λ same. absurd (ground (arith, other, eq_iff s.user_id user));
      others = λ _. refl;
    })
  ],
  send_to-Served user ev subs,
)

publish_to_creator-Told :
    (creator : Option String) (ev : String) (bus : MemoryBus)
    → Told creator ev bus (publish_to_creator creator ev bus)
unfolding publish_to_creator publish_to
publish_to_creator-Told none ev bus = nobody_to_tell (inl refl) refl
publish_to_creator-Told (some user) ev bus = elim (Bool-cases (str_eq user "")) [
  | inl unnamed ↦ rw unnamed (nobody_to_tell (inr (ap some (str_eq→eq user "" unnamed))) refl)
  | inr named ↦ rw named (
      user_told user refl (λ e. ground (arith, named, eq_iff user "")) refl
        (send_to-Served user ev bus.subs))
]

pub publish_completion-Told :
    (b : Backend) (j : AsyncJob) (message : Message) (level : Level) (bus : MemoryBus)
    → Told j.created_by
        (b.event_text (record { job_id = j.id; level = level; message = message }))
        bus
        (publish_completion b j message level bus)
unfolding publish_completion
publish_completion-Told b j message level bus =
    publish_to_creator-Told j.created_by
      (b.event_text (record { job_id = j.id; level = level; message = message })) bus
