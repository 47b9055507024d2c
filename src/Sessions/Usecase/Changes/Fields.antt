-- ===== src/Sessions/Usecase/Changes/Fields.antt =====
-- usecase/session_usecase.go: what `updateStartupParamsByUpdateRequest` does to each parameter.
use baru_reso_headless_contr.Prelude.{
  ◌≡◌, refl, subst, false, Option, none, some, List, [], ◌∷◌, String, str_eq, str_eq→eq, contains,
  if◌then◌else◌, Map, lookup, lookup-insert, lookup-delete, arith, Bool-cases, inl, inr, Unique,
}
use baru_reso_headless_contr.Sessions.Usecase.Changes.{
  ParameterUpdate, set_field, update_startup_params,
}

-- The fields of an update under their names.
abbrev pub fields : ParameterUpdate → List (String × Option String)
fields u =
    ("tags", u.tags)
    ∷ ("hideFromPublicListing", u.hide_from_public_listing)
    ∷ ("autoSleep", u.auto_sleep)
    ∷ ("autoSaveIntervalSeconds", u.auto_save_interval_seconds)
    ∷ ("saveOnExit", u.save_on_exit)
    ∷ ("idleRestartIntervalSeconds", u.idle_restart_interval_seconds)
    ∷ ("awayKickMinutes", u.away_kick_minutes)
    ∷ ("accessLevel", u.access_level)
    ∷ ("maxUsers", u.max_users)
    ∷ ("description", u.description)
    ∷ ("name", u.name)
    ∷ []

abbrev names : List (String × Option String) → List String
names [] = []
names ((key, v) ∷ fs) = key ∷ names fs

-- What an update gives for a name.
abbrev pub given_for : String → List (String × Option String) → Option String
given_for k [] = none
given_for k ((key, v) ∷ fs) = if str_eq key k then v else given_for k fs

-- The value of a parameter after an update: as it was where none is given, absent at its default.
abbrev pub value_after : Option String → Option String → Option String
value_after none old = old
value_after (some text) old = if str_eq text "" then none else some text

abbrev set_all : List (String × Option String) → Map String → Map String
set_all [] params = params
set_all ((key, v) ∷ fs) params = set_field key v (set_all fs params)

lookup-set_field :
    (key k : String) (v : Option String) (m : Map String)
    → lookup k (set_field key v m)
      ≡ (if str_eq key k then value_after v (lookup k m) else lookup k m)
unfolding set_field
lookup-set_field key k none m = ground arith
lookup-set_field key k (some text) m =
    ground (arith, lookup-insert key k text m, lookup-delete key k m)

set_all-other :
    (k : String) (fs : List (String × Option String)) (m : Map String)
    → contains (names fs) k ≡ false
    → lookup k (set_all fs m) ≡ lookup k m
set_all-other k [] m absent = refl
set_all-other k ((key, v) ∷ fs) m absent =
    ground (arith, absent, lookup-set_field key k v (set_all fs m), set_all-other k fs m)

lookup-set_all :
    (k : String) (fs : List (String × Option String)) (m : Map String)
    → Unique (names fs)
    → lookup k (set_all fs m) ≡ value_after (given_for k fs) (lookup k m)
lookup-set_all k [] m distinct = refl
lookup-set_all k ((key, v) ∷ fs) m (fresh, distinct) = elim (Bool-cases (str_eq key k)) [
  | inl same ↦
      let absent : contains (names fs) k ≡ false =
        subst (λ x. contains (names fs) x ≡ false) (str_eq→eq key k same) fresh in
      ground (arith, same, lookup-set_field key k v (set_all fs m), set_all-other k fs m absent)
  | inr apart ↦
      ground (arith, apart, lookup-set_field key k v (set_all fs m), lookup-set_all k fs m distinct)
]

fields-Unique : (u : ParameterUpdate) → Unique (names (fields u))
fields-Unique u =
    (refl, (refl, (refl, (refl, (refl, (refl, (refl, (refl, (refl, (refl, (refl, tt)))))))))))

-- Each parameter is as given, or as it was.
pub lookup-update_startup_params :
    (u : ParameterUpdate) (k : String) (m : Map String)
    → lookup k (update_startup_params u m) ≡ value_after (given_for k (fields u)) (lookup k m)
unfolding update_startup_params
lookup-update_startup_params u k m = lookup-set_all k (fields u) m (fields-Unique u)
