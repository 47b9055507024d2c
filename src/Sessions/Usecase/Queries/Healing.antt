-- ===== src/Sessions/Usecase/Queries/Healing.antt =====
-- usecase/session_usecase.go: what `GetSession` tells of a session, and what it repairs.
use baru_reso_headless_contr.Prelude.{err, Error, Result-cases, arith}
use baru_reso_headless_contr.Prelude.{
  ◌∷◌, ◌≡◌, ◌≢◌, ◌⊎◌, inl, inr, refl, ap, ◌∙◌, Bool, true, false, Option, none, some, List, [], ◌∷◌,
  String, Result, ok, arith, eq_iff, Bool-cases,
}
use baru_reso_headless_contr.Prelude.Exec.{query, resume}
use baru_reso_headless_contr.Domain.{Session, SessionStatus, LiveSession, running, ended, crashed}
use baru_reso_headless_contr.Sessions.Cache.{get, put}
use baru_reso_headless_contr.Sessions.Cache.Contents.{get-put}
use baru_reso_headless_contr.Sessions.Lifecycle.Ownership.{find-id, find-update_row}
use baru_reso_headless_contr.Sessions.Rows.{
  update_status, update_session_status, is_running, find_session, update_row,
}
use baru_reso_headless_contr.Sessions.Usecase.{Services, World, load, cached}
use baru_reso_headless_contr.Sessions.Usecase.Stopping.{find-load}
use baru_reso_headless_contr.Sessions.Usecase.Queries.{
  get_session, current, from_cache, from_host, mark, host_answer, is_ended, is_crashed,
  try_update_status,
}

-- A call that does not fail, and what is known of its result.
abbrev pub Answers : {S A : Type 0} → (A → S → Type 0) → Result A × S → Type 0
Answers {S} {A} P out = (a : A) × (s' : S) × (out ≡ (ok a, s')) × P a s'

-- The container of the host can be asked, and has the session.
abbrev pub HostHas : Services → String → String → LiveSession → Type 0
HostHas svc host id live =
    (svc.rpc_client host ≡ ok tt) × (svc.live_session host id ≡ ok (some live))

-- The container cannot be asked, fails, or answers without the session.
pub data HostLacks (svc : Services) (host id : String) : Type 0 where
  no_client : (e : Error) → svc.rpc_client host ≡ err e → HostLacks svc host id
  call_failed : (e : Error) → svc.live_session host id ≡ err e → HostLacks svc host id
  no_session : svc.live_session host id ≡ ok none → HostLacks svc host id

host_answer-HostHas :
    (svc : Services) (host id : String) (live : LiveSession)
    → host_answer svc host id ≡ some live
    → HostHas svc host id live
unfolding host_answer
host_answer-HostHas svc host id live h = elim (Result-cases (svc.rpc_client host)) [
  | inl (u, client) ↦ elim (Result-cases (svc.live_session host id)) [
    | inl (l, answer) ↦
        let same : l ≡ some live = ground (arith, client, answer, h) in
        (client, answer ∙ ap ok same)
    | inr (e, failing) ↦ absurd (ground (arith, client, failing, h))
  ]
  | inr (e, failing) ↦ absurd (ground (arith, failing, h))
]

host_answer-HostLacks :
    (svc : Services) (host id : String) → host_answer svc host id ≡ none → HostLacks svc host id
unfolding host_answer
host_answer-HostLacks svc host id h = elim (Result-cases (svc.rpc_client host)) [
  | inl (u, client) ↦ elim (Result-cases (svc.live_session host id)) [
    | inl (l, answer) ↦
        let same : l ≡ none = ground (arith, client, answer, h) in no_session (answer ∙ ap ok same)
    | inr (e, failing) ↦ call_failed e failing
  ]
  | inr (e, failing) ↦ no_client e failing
]

-- The status of a session, by what is known of it.
pub data Known (svc : Services) (id : String) (s : Session) (w : World)
    : SessionStatus → Option LiveSession → World → Type 0 where
  at_its_end : s.status ≡ ended → Known svc id s w s.status none w
  alive :
      {w' : World} (live : LiveSession)
      → (get id w.cache ≡ some live) ⊎ (get id w.cache ≡ none) × HostHas svc s.host_id id live
      → get id w'.cache ≡ some live
      → Known svc id s w running (some live) w'
  lost :
      {w' : World}
      → get id w.cache ≡ none
      → HostLacks svc s.host_id id
      → w'.cache ≡ w.cache
      → Known svc id s w crashed none w'

-- The row of the session has the status that is shown, and every other row stays.
pub record Marked (id : String) (w : World) (t : Session) (w' : World) : Type 0 where
  pub stored : w.store.down update_status ≡ false → find_session id w'.store.sessions ≡ ok t
  pub others :
      (k : String) → k ≢ id → find_session k w'.store.sessions ≡ find_session k w.store.sessions
  pub no_call : w'.calls ≡ w.calls
  pub owned :
      (old : Session) × (find_session id w'.store.sessions ≡ ok old)
      × (old.created_by ≡ t.created_by)
      × (old.group_id ≡ t.group_id)

find-other :
    (k id : String) (change : Session → Session) (ss : List Session)
    → ((x : Session) → (change x).id ≡ x.id)
    → k ≢ id
    → find_session k (update_row id (λ s. true) change ss) ≡ find_session k ss
unfolding update_row
find-other k id change [] same apart = refl
find-other k id change (x ∷ ss) same apart =
    ground (arith, same x, eq_iff x.id id, eq_iff x.id k, find-other k id change ss same apart)

-- The row with its new status.
find-marked :
    (status : SessionStatus) (id : String) (s : Session) (w : World)
    → find_session id w.store.sessions ≡ ok s
    → find_session id (update_session_status id status w.store).sessions
      ≡ ok (record s { status = status })
unfolding update_session_status
find-marked status id s w found = ground (
  arith,
  eq_iff s.id id,
  find-id id s w.store.sessions found,
  find-update_row id id (λ x. true) (λ x. record x { status = status }) s w.store.sessions
      (λ x. refl) found,
)

-- What `mark` returns and leaves.
mark-Marked :
    (now_is : Bool) (status : SessionStatus) (id : String) (s : Session) (w : World)
    → find_session id w.store.sessions ≡ ok s
    → (now_is ≡ true → s.status ≡ status)
    → ((mark now_is status id s w).0 ≡ ok (record s { status = status }))
      × Marked id w (record s { status = status }) (mark now_is status id s w).1
      × ((mark now_is status id s w).1.cache ≡ w.cache)
unfolding mark try_update_status update_session_status
mark-Marked true status id s w found already =
    let is_now : ok s ≡ ok (record s { status = status }) =
      ap (λ x. ok (record s { status = x })) (already refl) in
    (
      is_now,
      record {
        stored = λ up. found ∙ is_now;
        others = λ k apart. refl;
        no_call = refl;
        owned = (s, found, refl, refl);
      },
      refl,
    )
mark-Marked false status id s w found already = elim (Bool-cases (w.store.down update_status)) [
  | inl down ↦ rw down (
    refl,
    record {
      stored = λ up. absurd (ground (arith, down, up));
      others = λ k apart. refl;
      no_call = refl;
      owned = (s, found, refl, refl);
    },
    refl,
  )
  | inr up ↦
      let row = find-marked status id s w found in
      rw up (
        refl,
        record {
          stored = λ _. row;
          others = λ k apart.
              find-other k id (λ x. record x { status = status }) w.store.sessions (λ x. refl)
                apart;
          no_call = refl;
          owned = (record s { status = status }, row, refl, refl);
        },
        refl,
      )
]

-- What `GetSession` shows of a stored session.
pub record Shown (svc : Services) (id : String) (w : World) (r : Session × Option LiveSession)
    (w' : World) : Type 0 where
  pub s : Session
  pub loaded : load id w ≡ ok s
  pub only_status : r.0 ≡ record s { status = r.0.status }
  pub known : Known svc id s w r.0.status r.1 w'
  pub marked : Marked id w r.0 w'

is_running-running : (status : SessionStatus) → is_running status ≡ true → status ≡ running
is_running-running SessionStatus.unknown h = cc
is_running-running SessionStatus.starting h = cc
is_running-running SessionStatus.running h = refl
is_running-running SessionStatus.ended h = cc
is_running-running SessionStatus.crashed h = cc

is_crashed-crashed : (status : SessionStatus) → is_crashed status ≡ true → status ≡ crashed
is_crashed-crashed SessionStatus.unknown h = cc
is_crashed-crashed SessionStatus.starting h = cc
is_crashed-crashed SessionStatus.running h = cc
is_crashed-crashed SessionStatus.ended h = cc
is_crashed-crashed SessionStatus.crashed h = refl

is_ended-ended : (status : SessionStatus) → is_ended status ≡ true → status ≡ ended
is_ended-ended SessionStatus.unknown h = cc
is_ended-ended SessionStatus.starting h = cc
is_ended-ended SessionStatus.running h = cc
is_ended-ended SessionStatus.ended h = refl
is_ended-ended SessionStatus.crashed h = cc

from_host-Shown :
    (svc : Services) (id : String) (s : Session) (w : World)
    → load id w ≡ ok s
    → get id w.cache ≡ none
    → (answer : Option LiveSession) → host_answer svc s.host_id id ≡ answer
    → Answers (Shown svc id w) (from_host id s answer w)
unfolding from_host resume cached
from_host-Shown svc id s w loaded miss none said =
    let (returned, marked, same) =
      mark-Marked (is_crashed s.status) crashed id s w (find-load id w s loaded)
        (is_crashed-crashed s.status) in
    rw returned (
      (
        (record s { status = crashed }, none),
        (mark (is_crashed s.status) crashed id s w).1,
        refl,
        record {
          s = s;
          loaded = loaded;
          only_status = refl;
          known = lost miss (host_answer-HostLacks svc s.host_id id said) same;
          marked = marked;
        },
      ))
from_host-Shown svc id s w loaded miss (some live) said =
    let set = record w { cache = put s.host_id id (some live) w.cache } in
    let (returned, marked, same) =
      mark-Marked (is_running s.status) running id s set (find-load id w s loaded)
        (is_running-running s.status) in
    rw returned (
      (
        (record s { status = running }, some live),
        (mark (is_running s.status) running id s set).1,
        refl,
        record {
          s = s;
          loaded = loaded;
          only_status = refl;
          known =
              alive live (inr (miss, host_answer-HostHas svc s.host_id id live said))
                (ap (get id) same ∙ get-put s.host_id id live w.cache);
          marked = record {
            stored = marked.stored;
            others = marked.others;
            no_call = marked.no_call;
            owned = marked.owned;
          };
        },
      ))

from_cache-Shown :
    (svc : Services) (id : String) (s : Session) (w : World)
    → load id w ≡ ok s
    → (snapshot : Option LiveSession) → get id w.cache ≡ snapshot
    → Answers (Shown svc id w) (from_cache svc id s snapshot w)
unfolding from_cache resume
from_cache-Shown svc id s w loaded none miss =
    from_host-Shown svc id s w loaded miss (host_answer svc s.host_id id) refl
from_cache-Shown svc id s w loaded (some live) hit =
    let (returned, marked, same) =
      mark-Marked (is_running s.status) running id s w (find-load id w s loaded)
        (is_running-running s.status) in
    rw returned (
      (record s { status = running }, some live),
      (mark (is_running s.status) running id s w).1,
      refl,
      record {
        s = s;
        loaded = loaded;
        only_status = refl;
        known = alive live (inl hit) (ap (get id) same ∙ hit);
        marked = marked;
      },
    )

current-Shown :
    (svc : Services) (id : String) (s : Session) (w : World)
    → load id w ≡ ok s
    → (over : Bool) → is_ended s.status ≡ over
    → Answers (Shown svc id w) (current svc id s over w)
unfolding current
current-Shown svc id s w loaded true over = (
  (s, none),
  w,
  refl,
  record {
    s = s;
    loaded = loaded;
    only_status = refl;
    known = at_its_end (is_ended-ended s.status over);
    marked = record {
      stored = λ _. find-load id w s loaded;
      others = λ k apart. refl;
      no_call = refl;
      owned = (s, find-load id w s loaded, refl, refl);
    };
  },
)
current-Shown svc id s w loaded false over =
    from_cache-Shown svc id s w loaded (get id w.cache) refl

-- Where the row can be loaded, `GetSession` answers, whatever the host and the database do. An
-- ended session is shown as it is. Any other is shown running with its live state where the cache
-- or else the container of its host has it, and is then in the cache; else, when the container
-- cannot be asked, fails or answers without it, it is shown crashed. The row has the
-- status that is shown unless the database refuses the update, and nothing else of it changes, nor
-- does any other row.
pub get_session-Shown :
    (svc : Services) (id : String) (w : World) (s : Session)
    → load id w ≡ ok s
    → Answers (Shown svc id w) (get_session svc id w)
unfolding get_session query resume
get_session-Shown svc id w s loaded =
    rw loaded (current-Shown svc id s w loaded (is_ended s.status) refl)

-- The session that is shown is the one that was asked for.
pub Shown-id :
    (svc : Services) (id : String) (w w' : World) (r : Session × Option LiveSession)
    → Shown svc id w r w'
    → (r.0).id ≡ id
Shown-id svc id w w' r shown =
    ap (λ x. x.id) shown.only_status
    ∙ find-id id shown.s w.store.sessions (find-load id w shown.s shown.loaded)
