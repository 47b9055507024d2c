-- ===== src/Upgrade/Events/Enrollment.antt =====
-- worker/host_upgrade_orchestrator.go: `handleNewImage` and `enrollHost`.
use baru_reso_headless_contr.Prelude.{
  subst, ◌≡◌, refl, sym, ◌∙◌, ap, Bool, true, false, some, List, [], ◌∷◌, String, str_eq, Result,
  ok, err, arith, lookup, insert, lookup-insert, inl, inr, ◌⊎◌, Bool-cases, ◌&&◌, ◌||◌,
  if◌then◌else◌,
}
use baru_reso_headless_contr.Domain.{ContainerImage, HeadlessHost}
use baru_reso_headless_contr.Upgrade.{
  Orchestrator, DrainState, Outside, list_hosts, is_host_draining,
}
use baru_reso_headless_contr.Upgrade.Events.{
  is_candidate, take_snapshot, snapshot, enter, enroll_host, enroll_one, enroll_candidates,
  enroll_listed, handle_new_image,
}
use baru_reso_headless_contr.Upgrade.Events.Draining.{
  WasDraining, Later, Later-trans, Frozen, Frozen-same, seed_reconcile-Frozen,
}

-- `id` names a listed host that may be upgraded to this image.
abbrev pub listed_candidate : ContainerImage → List HeadlessHost → String → Bool
listed_candidate latest [] id = false
listed_candidate latest (h ∷ hs) id =
    (is_candidate latest h && str_eq h.id id) || listed_candidate latest hs id

abbrev pub listed_hosts : Result (List HeadlessHost) → List HeadlessHost
listed_hosts (err e) = []
listed_hosts (ok hosts) = hosts

-- A drain state that was captured for this tag.
abbrev pub IsFor : String → DrainState → Type 0
IsFor tag st = (st.target_tag ≡ tag) × (st.restart_params.container_image_tag ≡ tag)

-- Every host that drains in `o'` did so in `o`, with the same snapshot, or satisfies `New` and has
-- a snapshot for the image's tag.
abbrev pub Admits : ContainerImage → (String → Bool) → Orchestrator → Orchestrator → Type 0
Admits latest allowed o o' =
    (id : String) (st' : DrainState)
    → lookup id o'.drain_targets ≡ some st'
    → WasDraining o id st' ⊎ ((allowed id ≡ true) × IsFor latest.tag st')

module _ (latest : ContainerImage) where
  Admits-Frozen :
      (allowed : String → Bool) (o o' : Orchestrator) → Frozen o o' → Admits latest allowed o o'
  Admits-Frozen allowed o o' f id st' here = inl (f id st' here)

  Later-IsFor : {st st' : DrainState} → Later st st' → IsFor latest.tag st → IsFor latest.tag st'
  Later-IsFor later p = ground arith

  Admits-trans :
      (first rest : String → Bool) (a b c : Orchestrator)
      → Admits latest first a b
      → Admits latest rest b c
      → Admits latest (λ id. first id || rest id) a c
  Admits-trans first rest a b c p q id st' here = go (q id st' here)
    where
      earlier :
          (st : DrainState)
          → Later st st'
          → WasDraining a id st ⊎ ((first id ≡ true) × IsFor latest.tag st)
          → WasDraining a id st' ⊎ (((first id || rest id) ≡ true) × IsFor latest.tag st')
      earlier st later (inl (st0, before, since)) = inl (st0, before, Later-trans since later)
      earlier st later (inr (now, for)) = inr (rw now, Later-IsFor later for)

      go :
          WasDraining b id st' ⊎ ((rest id ≡ true) × IsFor latest.tag st')
          → WasDraining a id st' ⊎ (((first id || rest id) ≡ true) × IsFor latest.tag st')
      go (inl (st, there, later)) = earlier st later (p id st there)
      go (inr (now, for)) = inr (ground arith, for)

  module _ (env : Outside) where
    take_snapshot-IsFor :
        (host : HeadlessHost) (tag : String) (o : Orchestrator) (st : DrainState)
        → (take_snapshot env host tag o).0 ≡ ok st
        → IsFor tag st
    unfolding take_snapshot snapshot
    take_snapshot-IsFor host tag o st h = ground arith

    drain_targets-take_snapshot :
        (host : HeadlessHost) (tag : String) (o : Orchestrator)
        → (take_snapshot env host tag o).1.drain_targets ≡ o.drain_targets
    unfolding take_snapshot
    drain_targets-take_snapshot host tag o = ground arith

    enter-Admits :
        (host : HeadlessHost) (r : Result DrainState) (o : Orchestrator)
        → ((st : DrainState) → r ≡ ok st → IsFor latest.tag st)
        → Admits latest (λ id. str_eq host.id id) o (enter env host r o)
    unfolding enter
    enter-Admits host (err e) o for =
        Admits-Frozen (λ id. str_eq host.id id) o o (Frozen-same o o refl)
    enter-Admits host (ok st) o for = elim (Bool-cases (is_host_draining host.id o)) [
      | inl drains ↦ rw drains (Admits-Frozen (λ id. str_eq host.id id) o o (Frozen-same o o refl))
      | inr absent ↦ rw absent (λ id st' here.
          let o1 = record o { drain_targets = insert host.id st o.drain_targets } in
          let (st1, there, later) = seed_reconcile-Frozen env host.id o1 o1 refl id st' here in
          inserted id st1 st' later there)
    ]
      where
        inserted :
            (id : String) (st1 st' : DrainState)
            → Later st1 st'
            → lookup id (insert host.id st o.drain_targets) ≡ some st1
            → WasDraining o id st' ⊎ ((str_eq host.id id ≡ true) × IsFor latest.tag st')
        inserted id st1 st' later there = elim (Bool-cases (str_eq host.id id)) [
          | inl same ↦
              let e : st ≡ st1 = ground (arith, lookup-insert host.id id st o.drain_targets) in
              inr (same, Later-IsFor later (subst (IsFor latest.tag) e (for st refl)))
          | inr differs ↦
              inl (st1, ground (arith, lookup-insert host.id id st o.drain_targets), later)
        ]

    enroll_host-Admits :
        (host : HeadlessHost) (o : Orchestrator)
        → Admits latest (λ id. str_eq host.id id) o (enroll_host env host latest.tag o)
    unfolding enroll_host
    enroll_host-Admits host o =
        let (r, o') = take_snapshot env host latest.tag o in
        let same : o'.drain_targets ≡ o.drain_targets =
          drain_targets-take_snapshot host latest.tag o in
        λ id st' here.
          moved o o' id st' same
            (enter-Admits host r o' (take_snapshot-IsFor host latest.tag o) id st' here)
      where
        moved :
            (o o' : Orchestrator) (id : String) (st' : DrainState)
            → o'.drain_targets ≡ o.drain_targets
            → WasDraining o' id st' ⊎ ((str_eq host.id id ≡ true) × IsFor latest.tag st')
            → WasDraining o id st' ⊎ ((str_eq host.id id ≡ true) × IsFor latest.tag st')
        moved o o' id st' same (inl (st, there, later)) =
            inl (st, sym (ap (lookup id) same) ∙ there, later)
        moved o o' id st' same (inr new) = inr new

    enroll_one-Admits :
        (host : HeadlessHost) (o : Orchestrator)
        → Admits latest
            (λ id. is_candidate latest host && str_eq host.id id)
            o
            (enroll_one env latest host o)
    unfolding enroll_one
    enroll_one-Admits host o = elim (Bool-cases (is_candidate latest host)) [
      | inl candidate ↦ rw candidate (elim (Bool-cases (is_host_draining host.id o)) [
        | inl drains ↦
            rw drains (Admits-Frozen (λ id. str_eq host.id id) o o (Frozen-same o o refl))
        | inr absent ↦ rw absent (enroll_host-Admits host o)
      ])
      | inr refused ↦ rw refused (Admits-Frozen (λ id. false) o o (Frozen-same o o refl))
    ]

    enroll_candidates-Admits :
        (hosts : List HeadlessHost) (o : Orchestrator)
        → Admits latest (listed_candidate latest hosts) o (enroll_candidates env latest hosts o)
    unfolding enroll_candidates
    enroll_candidates-Admits [] o =
        Admits-Frozen (listed_candidate latest []) o o (Frozen-same o o refl)
    enroll_candidates-Admits (h ∷ hs) o =
        let o' = enroll_one env latest h o in
        Admits-trans (λ id. is_candidate latest h && str_eq h.id id) (listed_candidate latest hs) o
          o' (enroll_candidates env latest hs o') (enroll_one-Admits h o)
          (enroll_candidates-Admits hs o')

    enroll_listed-Admits :
        (r : Result (List HeadlessHost)) (o : Orchestrator)
        → Admits latest (listed_candidate latest (listed_hosts r)) o (enroll_listed env latest r o)
    unfolding enroll_listed
    enroll_listed-Admits (err e) o =
        Admits-Frozen (listed_candidate latest []) o o (Frozen-same o o refl)
    enroll_listed-Admits (ok hosts) o = enroll_candidates-Admits hosts o

    -- After a new image, a host drains only if it drained before, with the same snapshot, or the
    -- image is no pre-release and the host was listed as running, opted in, at another version;
    -- then its restart is for the image's tag.
    pub handle_new_image-Admits :
        (o : Orchestrator) (id : String) (st' : DrainState)
        → lookup id (handle_new_image env (some latest) o).drain_targets ≡ some st'
        → WasDraining o id st'
          ⊎ ((latest.is_pre_release ≡ false)
              × (listed_candidate latest (listed_hosts (env.list_all_hosts o.calls)) id ≡ true)
              × IsFor latest.tag st')
    unfolding handle_new_image is_candidate
    handle_new_image-Admits o id st' here = go latest.is_pre_release refl here
      where
        listed : Orchestrator
        listed = record o {
          session_users = env.others (list_hosts ∷ o.calls) o.session_users;
          calls = list_hosts ∷ o.calls;
        }

        go :
            (pre : Bool)
            → latest.is_pre_release ≡ pre
            → lookup id
                (if pre
                  then o
                  else enroll_listed env latest (env.list_all_hosts o.calls) listed).drain_targets
              ≡ some st'
            → WasDraining o id st'
              ⊎ ((latest.is_pre_release ≡ false)
                  × (listed_candidate latest (listed_hosts (env.list_all_hosts o.calls)) id ≡ true)
                  × IsFor latest.tag st')
        go true e here = inl (Frozen-same o o refl id st' here)
        go false e here =
            elim (enroll_listed-Admits (env.list_all_hosts o.calls) listed id st' here) [
              | inl before ↦ inl before
              | inr (candidate, for) ↦ inr (e, candidate, for)
            ]
