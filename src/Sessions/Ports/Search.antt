-- ===== src/Sessions/Ports/Search.antt =====
-- usecase/session_usecase.go, config/config.go: a free port of the configured range is found.
use baru_reso_headless_contr.Prelude.{
  ℕ, zero, suc, ◌≡◌, refl, ◌+◌, ◌-◌, ◌≤◌, ◌<◌, Bool, true, false, String, str_eq, Error, not, ◌&&◌,
  ◌==◌, Option, none, some, Result, ok, err, leb, arith, Bool-cases, inl, inr, ◌∙◌, Result-cases,
}
use baru_reso_headless_contr.Prelude.Int32.{ℤ, pos, negsuc}
use Prim.Native.Nat.{◌%◌}
use native.Mathlib.Nat.{mod-eq_of_lt, mod-eq-sub-mod, mod-lt}
use baru_reso_headless_contr.Sessions.Ports.{
  PortRange, port_in, parsed, parse_session_port_env, size, candidate_port, find_from, found,
  get_free_session_port,
}

-- A range that the configuration accepts.
pub data IsConfigured (r : PortRange) : Type 0 where
  unset : r.port_min ≡ 0 → r.port_max ≡ 0 → IsConfigured r
  ordered : 1024 ≤ r.port_min → r.port_min ≤ r.port_max → r.port_max ≤ 65535 → IsConfigured r

port_in_bounds : (least : ℕ) (n : ℤ) {p : ℕ} → port_in least n ≡ ok p → (least ≤ p) × (p ≤ 65535)
unfolding port_in
port_in_bounds least (pos n) h = ground arith
port_in_bounds least (negsuc n) h = cc

parsed-IsConfigured : (lo hi : Option ℤ) {r : PortRange} → parsed lo hi ≡ ok r → IsConfigured r
unfolding parsed
parsed-IsConfigured none hi h = cc
parsed-IsConfigured (some lo) none h = cc
parsed-IsConfigured (some lo) (some hi) h = elim (Result-cases (port_in 1024 lo)) [
  | inl (a, ea) ↦ elim (Result-cases (port_in 1 hi)) [
    | inl (b, eb) ↦
        let least = port_in_bounds 1024 lo ea in
        let most = port_in_bounds 1 hi eb in
        ordered (ground (arith, ea, eb, least, most, h)) (ground (arith, ea, eb, least, most, h))
          (ground (arith, ea, eb, least, most, h))
    | inr (e, eb) ↦ absurd (ground (arith, ea, eb, h))
  ]
  | inr (e, ea) ↦ absurd (ground (arith, ea, h))
]

parse_session_port_env-IsConfigured :
    (atoi : String → Option ℤ) (min_text max_text : String) (r : PortRange)
    → parse_session_port_env atoi min_text max_text ≡ ok r
    → IsConfigured r
unfolding parse_session_port_env
parse_session_port_env-IsConfigured atoi min_text max_text r h =
    elim (Bool-cases (not (str_eq min_text "") && not (str_eq max_text ""))) [
      | inl both ↦ parsed-IsConfigured (atoi min_text) (atoi max_text) (rw both at h)
      | inr not_both ↦ unset (ground (arith, not_both, h)) (ground (arith, not_both, h))
    ]

-- A port that the loop returns is a candidate, and it is free.
find_from_sound :
    (available : ℕ → Bool) (r : PortRange) (offset left i p : ℕ)
    → find_from available r offset left i ≡ some p
    → (r.port_min ≤ p) × (p ≤ r.port_min + (r.port_max - r.port_min)) × (available p ≡ true)
unfolding find_from
find_from_sound available r offset zero i p h = cc
find_from_sound available r offset (suc left) i p h =
    elim (Bool-cases (available (candidate_port r offset i))) [
      | inl free ↦
          let e : candidate_port r offset i ≡ p = ground (arith, free, h) in
          let small : (offset + i) % size r < size r = mod-lt (offset + i) (omega arith) in
          (omega arith, omega arith, rw e at free)
      | inr taken ↦ find_from_sound available r offset left (suc i) p (ground (arith, taken, h))
    ]

-- Without a result every candidate was taken.
find_from-none :
    (available : ℕ → Bool) (r : PortRange) (offset left i : ℕ)
    → find_from available r offset left i ≡ none
    → (k : ℕ) → i ≤ k
    → k < i + left
    → available (candidate_port r offset k) ≡ false
unfolding find_from
find_from-none available r offset zero i h k ge lt = absurd (omega arith)
find_from-none available r offset (suc left) i h k ge lt =
    elim (Bool-cases (available (candidate_port r offset i))) [
      | inl free ↦ absurd (ground (arith, free, h))
      | inr taken ↦
          let rest : find_from available r offset left (suc i) ≡ none = ground (arith, taken, h) in
          elim (Bool-cases (leb (suc i) k)) [
            | inl later ↦
                find_from-none available r offset left (suc i) rest k (ground (arith, later))
                  (omega arith)
            | inr now ↦ let e : k ≡ i = ground (arith, now) in rw e taken
          ]
    ]

-- Some round of the loop tries each port.
round_of : (n offset x : ℕ) → offset < n → x < n → (k : ℕ) × (k < n) × ((offset + k) % n ≡ x)
round_of n offset x o lt = elim (Bool-cases (leb offset x)) [
  | inl le ↦
      let e : offset + (x - offset) ≡ x = ground (arith, le) in
      (x - offset, ground (arith, le), rw e (mod-eq_of_lt lt))
  | inr gt ↦
      let e : offset + (x + n - offset) ≡ x + n = ground (arith, gt) in
      let whole : n ≤ x + n = omega arith in
      let back : x + n - n ≡ x = omega arith in
      (x + n - offset, ground (arith, gt), rw e (mod-eq-sub-mod whole ∙ rw back (mod-eq_of_lt lt)))
]

-- What the search promises.
pub data FreePort (available : ℕ → Bool) (r : PortRange) : Result ℕ → Type 0 where
  not_set : r.port_min ≡ 0 → r.port_max ≡ 0 → FreePort available r (ok 0)
  is_free :
      (p : ℕ)
      → (r.port_min ≤ p) × (p ≤ r.port_max)
      → (1024 ≤ p) × (p ≤ 65535)
      → available p ≡ true
      → FreePort available r (ok p)
  all_taken :
      {e : Error}
      → ((p : ℕ) → r.port_min ≤ p → p ≤ r.port_max → available p ≡ false)
      → FreePort available r (err e)

module _ (available : ℕ → Bool) (r : PortRange) (least : 1024 ≤ r.port_min)
    (nonempty : r.port_min ≤ r.port_max) (most : r.port_max ≤ 65535) where
  found-FreePort :
      (offset : ℕ)
      → offset < size r
      → (o : Option ℕ) → find_from available r offset (size r) 0 ≡ o
      → FreePort available r (found o)
  unfolding found
  found-FreePort offset below (some p) h =
      let at = find_from_sound available r offset (size r) 0 p h in
      is_free p (at.0, omega arith) (omega arith, omega arith) at.2
  found-FreePort offset below none h = all_taken (λ p ge le.
      let (k, lt, hits) = round_of (size r) offset (p - r.port_min) below (omega arith) in
      let taken = find_from-none available r offset (size r) 0 h k (omega arith) (omega arith) in
      let e : r.port_min + (offset + k) % size r ≡ p = omega arith in rw e at taken)

-- For every range that the configuration accepts, the search ends with a port that the system has
-- free, inside the range and between 1024 and 65535; or with 0 where no range is set; or with an
-- error, and then each port of the range is taken. So a free port is found whenever there is one,
-- wherever the search begins.
pub get_free_session_port-FreePort :
    (atoi : String → Option ℤ) (min_text max_text : String) (r : PortRange)
    → parse_session_port_env atoi min_text max_text ≡ ok r
    → (available : ℕ → Bool) (unix_nano : ℕ)
    → FreePort available r (get_free_session_port available unix_nano r)
unfolding get_free_session_port
get_free_session_port-FreePort atoi min_text max_text r h available unix_nano =
    of_range (parse_session_port_env-IsConfigured atoi min_text max_text r h)
  where
    of_range : IsConfigured r → FreePort available r (get_free_session_port available unix_nano r)
    of_range (unset lo hi) = rw (lo, hi) (not_set refl refl)
    of_range (ordered least nonempty most) =
        let some_port : (r.port_min == 0 && r.port_max == 0) ≡ false = ground arith in
        rw some_port (
          found-FreePort available r least nonempty most (unix_nano % size r)
            (mod-lt unix_nano (omega arith)) (find_from available r (unix_nano % size r) (size r) 0)
            refl)
