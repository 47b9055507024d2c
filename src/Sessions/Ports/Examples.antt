-- ===== src/Sessions/Ports/Examples.antt =====
-- Of the ports 5000 to 5003 all but one are taken.
use baru_reso_headless_contr.Prelude.{
  ℕ, Bool, String, str_eq, Option, some, ◌==◌, if◌then◌else◌, refl,
}
use baru_reso_headless_contr.Prelude.Int32.{ℤ, pos}
use baru_reso_headless_contr.Sessions.Ports.{
  PortRange, parse_session_port_env, port_in, parsed, get_free_session_port,
}
use baru_reso_headless_contr.Sessions.Ports.Search.{FreePort, get_free_session_port-FreePort}

abbrev atoi : String → Option ℤ
atoi text = if str_eq text "5000" then some (pos 5000) else some (pos 5003)

abbrev range : PortRange
range = record { port_min = 5000; port_max = 5003 }

abbrev only_5001 : ℕ → Bool
only_5001 p = p == 5001

get_free_session_port-FreePort_example :
    FreePort only_5001 range (get_free_session_port only_5001 1234567 range)
unfolding parse_session_port_env port_in parsed
get_free_session_port-FreePort_example =
    get_free_session_port-FreePort atoi "5000" "5003" range refl only_5001 1234567
