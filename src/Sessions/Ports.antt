-- ===== src/Sessions/Ports.antt =====
-- usecase/session_usecase.go: `getFreeSessionPort`, with the port range of config/config.go.
-- `available` says on which ports the operating system lets the controller listen.
pub mod Search
mod Examples
use baru_reso_headless_contr.Prelude.{
  ℕ, zero, suc, ◌+◌, ◌-◌, Bool, true, false, not, ◌&&◌, ◌||◌, String, str_eq, Option, none, some,
  Result, ok, err, other, if◌then◌else◌, ltb, ◌==◌, ◌>>=◌, ◌>>◌, guard,
}
use baru_reso_headless_contr.Prelude.Int32.{ℤ, pos, negsuc}
use Prim.Native.Nat.{◌%◌}

pub record PortRange : Type 0 where
  pub port_min : ℕ
  pub port_max : ℕ

-- The number of a port between `least` and 65535.
port_in : ℕ → ℤ → Result ℕ
port_in least (negsuc n) = err (other "port out of range")
port_in least (pos n) = do
  guard (not (ltb n least || ltb 65535 n)) (other "port out of range")
  ok n

parsed : Option ℤ → Option ℤ → Result PortRange
unfolding port_in
parsed none hi = err (other "invalid SESSION_PORT_MIN")
parsed (some lo) none = err (other "invalid SESSION_PORT_MAX")
parsed (some lo) (some hi) = do
  a ← port_in 1024 lo
  b ← port_in 1 hi
  guard (not (ltb b a)) (other "invalid port range")
  ok (record { port_min = a; port_max = b })

-- The two environment variables; `atoi` is `strconv.Atoi`, with `none` for its error.
pub parse_session_port_env : (String → Option ℤ) → String → String → Result PortRange
unfolding parsed
parse_session_port_env atoi min_text max_text =
    if not (str_eq min_text "") && not (str_eq max_text "")
    then parsed (atoi min_text) (atoi max_text)
    else if not (str_eq min_text "") || not (str_eq max_text "")
    then err (other "SESSION_PORT_MIN and SESSION_PORT_MAX must both be set or both be unset")
    else ok (record { port_min = 0; port_max = 0 })

abbrev pub size : PortRange → ℕ
size r = suc (r.port_max - r.port_min)

abbrev pub candidate_port : PortRange → ℕ → ℕ → ℕ
candidate_port r offset i = r.port_min + (offset + i) % size r

-- The loop over `i`, with the number of rounds that are left.
pub find_from : (ℕ → Bool) → PortRange → ℕ → ℕ → ℕ → Option ℕ
find_from available r offset zero i = none
find_from available r offset (suc left) i = elim (available (candidate_port r offset i)) [
  | true ↦ some (candidate_port r offset i)
  | false ↦ find_from available r offset left (suc i)
]

found : Option ℕ → Result ℕ
found none = err (other "no free port found in range")
found (some port) = ok port

-- 0 stands for no port: the range is not set.
pub get_free_session_port : (ℕ → Bool) → ℕ → PortRange → Result ℕ
unfolding found
get_free_session_port available unix_nano r =
    if r.port_min == 0 && r.port_max == 0
    then ok 0
    else found (find_from available r (unix_nano % size r) (size r) 0)
