-- ===== src/Sessions/Usecase/Starting.antt =====
-- usecase/session_usecase.go: what `StartSession` needs, and what it leaves.
use baru_reso_headless_contr.Prelude.{none, insert, ◌==◌, ℕ, ◌≢◌, List, not_found}
use baru_reso_headless_contr.Domain.{Session, running}
use baru_reso_headless_contr.Sessions.Lifecycle.Ownership.{find-exists}
use baru_reso_headless_contr.Sessions.Rows.{
  Store, find_session, session_exists, update_row, overwrite,
}
use baru_reso_headless_contr.Sessions.Usecase.Stopping.{find-overwrite}
use baru_reso_headless_contr.Prelude.{
  ◌⊎◌, arith, eq_iff, Result-cases, Result-cases, arith, ◌≡◌, refl, true, false, ◌||◌, Option, some,
  [], ◌∷◌, String, str_eq, Map, ok, err, Error, All, Bool-cases, inl, inr,
}
use baru_reso_headless_contr.Prelude.Exec.{resume}
use baru_reso_headless_contr.Prelude.Outcome.{Effect, changed, Effect-query, Effect-check}
use baru_reso_headless_contr.Permission.Tables.{Db}
use baru_reso_headless_contr.Permission.Check.{Ctx}
use baru_reso_headless_contr.Permission.Check.Grants.{
  CallerGranted, require_all_permissions_for_group-Granted,
}
use baru_reso_headless_contr.Sessions.Cache.{put}
use baru_reso_headless_contr.Sessions.Rows.{upsert, upsert_session}
use baru_reso_headless_contr.Sessions.Usecase.{
  Services, Opened, World, start_world, host_use, account_use, session_write, write, cached,
  call_host, container_params, opened_session, open_and_keep, start_session,
}

-- The row of a world that was opened: what was asked for and what the container answered. A row
-- that was there keeps its group and its creator.
pub record OpenedRow (host group : String) (user : Option String) (params : Map String)
    (memo : Option String) (o : Opened) (before after : List Session) : Type 0 where
  pub row : Session
  pub is_stored : find_session o.id after ≡ ok row
  pub named : row.name ≡ o.live.name
  pub runs : row.status ≡ running
  pub since : row.started_at ≡ some o.started_at
  pub not_over : row.ended_at ≡ none
  pub on_host : row.host_id ≡ host
  pub as_requested : row.startup_parameters ≡ params
  pub no_upgrade : row.auto_upgrade ≡ false
  pub with_memo : (text : String) → memo ≡ some text → row.memo ≡ text
  pub without_memo : memo ≡ none → row.memo ≡ ""
  pub owned_anew :
      find_session o.id before ≡ err not_found → (row.group_id ≡ group) × (row.created_by ≡ user)
  pub owned_before :
      (old : Session)
      → find_session o.id before ≡ ok old
      → (row.group_id ≡ old.group_id)
        × (row.created_by ≡ (elim old.created_by [ none ↦ user | some creator ↦ some creator ]))
  pub others : (k : String) → k ≢ o.id → find_session k after ≡ find_session k before

find-absent :
    (id : String) (rows : List Session)
    → session_exists id rows ≡ false
    → find_session id rows ≡ err not_found
find-absent id [] h = refl
find-absent id (r ∷ rows) h = ground (arith, find-absent id rows)

find-present :
    (id : String) (rows : List Session)
    → session_exists id rows ≡ true
    → (old : Session) × (find_session id rows ≡ ok old)
find-present id [] h = cc
find-present id (r ∷ rows) h = elim (Bool-cases (str_eq r.id id)) [
  | inl same ↦ (r, rw same refl)
  | inr apart ↦
      let (old, found) = find-present id rows (ground (arith, apart, h)) in
      (old, ground (arith, apart, found))
]

overwrite-other :
    (k : String) (s : Session) (rows : List Session)
    → k ≢ s.id
    → find_session k (update_row s.id (λ old. true) (overwrite s) rows) ≡ find_session k rows
unfolding update_row
overwrite-other k s [] apart = refl
overwrite-other k s (r ∷ rows) apart =
    ground (arith, eq_iff r.id s.id, eq_iff r.id k, eq_iff s.id k, overwrite-other k s rows apart)

upsert_session-other :
    (k : String) (s : Session) (st : Store)
    → k ≢ s.id
    → find_session k (upsert_session s st).sessions ≡ find_session k st.sessions
unfolding upsert_session
upsert_session-other k s st apart = elim (Bool-cases (session_exists s.id st.sessions)) [
  | inl known ↦ rw known (overwrite-other k s st.sessions apart)
  | inr absent ↦ rw absent (ground (arith, eq_iff s.id k))
]

upsert_session-anew :
    (s : Session) (st : Store)
    → session_exists s.id st.sessions ≡ false
    → find_session s.id (upsert_session s st).sessions ≡ ok s
unfolding upsert_session
upsert_session-anew s st absent = rw absent (ground (arith, eq_iff s.id s.id))

upsert_session-again :
    (s old : Session) (st : Store)
    → find_session s.id st.sessions ≡ ok old
    → find_session s.id (upsert_session s st).sessions ≡ ok (overwrite s old)
unfolding upsert_session
upsert_session-again s old st h =
    rw (find-exists s.id old st.sessions h) (find-overwrite s old st.sessions h)

opened_session-OpenedRow :
    (host group : String) (user : Option String) (params : Map String) (memo : Option String)
    (o : Opened) (st : Store)
    → OpenedRow host group user params memo o st.sessions
        (upsert_session (opened_session host group user params memo o) st).sessions
unfolding opened_session
opened_session-OpenedRow host group user params memo o st =
    let s = opened_session host group user params memo o in
    elim (Bool-cases (session_exists o.id st.sessions)) [
      | inl known ↦
          let (old, found) = find-present o.id st.sessions known in
          record {
            row = overwrite s old;
            is_stored = upsert_session-again s old st found;
            named = refl;
            runs = refl;
            since = refl;
            not_over = refl;
            on_host = refl;
            as_requested = refl;
            no_upgrade = refl;
            with_memo = λ text e. rw e refl;
            without_memo = λ e. rw e refl;
            owned_anew = λ absent. absurd (ground (arith, found, absent));
            owned_before = λ old' found'.
                let same : old ≡ old' = cc (found, found') in
                (ground (arith, same), ground (arith, same));
            others = λ k apart. upsert_session-other k s st apart;
          }
      | inr absent ↦ record {
        row = s;
        is_stored = upsert_session-anew s st absent;
        named = refl;
        runs = refl;
        since = refl;
        not_over = refl;
        on_host = refl;
        as_requested = refl;
        no_upgrade = refl;
        with_memo = λ text e. rw e refl;
        without_memo = λ e. rw e refl;
        owned_anew = λ _. (refl, refl);
        owned_before =
            λ old found. absurd (ground (arith, find-exists o.id old st.sessions found, absent));
        others = λ k apart. upsert_session-other k s st apart;
      }
    ]

module _ (svc : Services) (host group : String) (user : Option String) (params : Map String)
    (memo : Option String) (for_container : Map String) (w : World) where
  -- What became of the world that the container was asked for.
  pub data Kept (w' : World) : Type 0 where
    not_opened :
        (e : Error)
        → svc.open_world host for_container ≡ err e
        → w'.store ≡ w.store
        → w'.cache ≡ w.cache
        → Kept w'
    not_stored :
        (o : Opened)
        → svc.open_world host for_container ≡ ok o
        → w.store.down upsert ≡ true
        → w'.store ≡ w.store
        → w'.cache ≡ w.cache
        → Kept w'
    kept :
        (o : Opened)
        → svc.open_world host for_container ≡ ok o
        → w.store.down upsert ≡ false
        → OpenedRow host group user params memo o w.store.sessions w'.store.sessions
        → w'.cache ≡ put host o.id (some o.live) w.cache
        → Kept w'

  abbrev after : World
  after = (open_and_keep svc host group user params memo for_container w).1

  after-Kept : Kept after × (after.calls ≡ start_world host for_container ∷ w.calls)
  unfolding open_and_keep call_host resume write cached
  after-Kept = elim (Result-cases (svc.open_world host for_container)) [
    | inl (o, opened) ↦ elim (Bool-cases (w.store.down upsert)) [
      | inl down ↦ rw (opened, down) (not_stored o opened down refl refl, refl)
      | inr up ↦
          rw (opened, up)
            (
              kept o opened up (opened_session-OpenedRow host group user params memo o w.store)
                  refl,
              refl,
            )
    ]
    | inr (e, failing) ↦ rw failing (not_opened e failing refl refl, refl)
  ]

-- What a start rests on.
pub record Permitted (svc : Services) (db : Db) (ctx : Ctx) (host group host_group : String)
    : Type 0 where
  pub not_draining : svc.is_host_draining host ≡ false
  pub of_host : svc.host_group host ≡ ok host_group
  pub same_group : (group ≡ "") ⊎ (group ≡ host_group)
  pub granted : All (CallerGranted db ctx host_group) (host_use ∷ account_use ∷ session_write ∷ [])

-- The parameters that the container is given: those that force a port, or that a search without a
-- free port left alone, are as requested, else the port that was found is forced.
pub data ForContainer (svc : Services) (params : Map String) (given : Map String) : Type 0 where
  port_forced : svc.force_port params ≢ 0 → given ≡ params → ForContainer svc params given
  port_zero :
      svc.force_port params ≡ 0
      → svc.free_port ≡ ok 0
      → given ≡ params
      → ForContainer svc params given
  port_found :
      (port : ℕ)
      → svc.force_port params ≡ 0
      → svc.free_port ≡ ok port
      → port ≢ 0
      → given ≡ insert "forcePort" (svc.port_text port) params
      → ForContainer svc params given

container_params-ForContainer :
    (svc : Services) (params given : Map String)
    → container_params svc params ≡ ok given
    → ForContainer svc params given
unfolding container_params
container_params-ForContainer svc params given h = elim (Bool-cases (svc.force_port params == 0)) [
  | inr forced ↦ port_forced (ground arith) (ground (arith, forced, h))
  | inl free ↦ elim (Result-cases svc.free_port) [
    | inr (e, failing) ↦ absurd (ground (arith, free, failing, h))
    | inl (port, found) ↦ elim (Bool-cases (port == 0)) [
      | inl zero ↦
          port_zero (ground arith) (ground (arith, found, zero))
            (ground (arith, free, found, zero, h))
      | inr some_port ↦
          port_found port (ground arith) found (ground arith)
            (ground (arith, free, found, some_port, h))
    ]
  ]
]

-- A container was asked for a world.
pub record Started (svc : Services) (db : Db) (ctx : Ctx) (host group : String)
    (user : Option String) (params : Map String) (memo : Option String) (w w' : World)
    : Type 0 where
  pub host_group : String
  pub permitted : Permitted svc db ctx host group host_group
  pub for_container : Map String
  pub with_port : ForContainer svc params for_container
  pub one_call : w'.calls ≡ start_world host for_container ∷ w.calls
  pub outcome : Kept svc host host_group user params memo for_container w w'

group_fits :
    (group g : String) → (str_eq group "" || str_eq group g) ≡ true → (group ≡ "") ⊎ (group ≡ g)
group_fits group g h = elim (Bool-cases (str_eq group "")) [
  | inl e ↦ inl ((eq_iff group "").0 e)
  | inr e ↦ inr ((eq_iff group g).0 (ground (arith, e, h)))
]

-- `StartSession` either changes nothing and asks no container, or the host is not draining, the
-- requested group is none or the host's, and the caller is granted host:use, account:use and
-- session:write there. Then it asks the host's container once. The session is cached only if it
-- was opened and a running row of its id is found: of this host, with the name and start that the
-- container gave, and the parameters as they were requested, without the port that was chosen for
-- the container. A new row is the caller's in the host's group, one that was there keeps its owner,
-- and no other row changes.
pub start_session-Effect :
    (svc : Services) (db : Db) (ctx : Ctx) (host group : String) (user : Option String)
    (params : Map String) (memo : Option String) (w : World)
    → Effect
        (Started svc db ctx host group user params memo w)
        w
        (start_session svc db ctx host group user params memo w).1
unfolding start_session
start_session-Effect svc db ctx host group user params memo w = Effect-check _ _ _ w (λ awake.
    Effect-query _ _ w (λ g of_host. Effect-check _ _ _ w (λ same. Effect-query _ _ w (λ _ may.
      Effect-query _ _ w (λ _ _. Effect-query _ _ w (λ for_container with_port.
        let (outcome, one_call) = after-Kept svc host g user params memo for_container w in
        changed (record {
          host_group = g;
          permitted = record {
            not_draining = ground (arith, awake);
            of_host = of_host;
            same_group = group_fits group g same;
            granted = require_all_permissions_for_group-Granted db ctx g _ may;
          };
          for_container = for_container;
          with_port = container_params-ForContainer svc params for_container with_port;
          one_call = one_call;
          outcome = outcome;
        })))))))
