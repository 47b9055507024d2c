-- ===== src/Notification/Delivery/Examples.antt =====
-- Examples for usecase/notification/bus.go: two subscribers of one user and another.
use baru_reso_headless_contr.Prelude.{◌≡◌, [], ◌∷◌, List, arith}
use baru_reso_headless_contr.Notification.{MemoryBus}
use baru_reso_headless_contr.Notification.Delivery.{
  Sent, to_all, to_user, send_all, served, send_all-served,
}

abbrev bus : MemoryBus
bus = record {
  next_id = 2;
  subs =
      record { id = 2; user_id = "mia"; ch = "old" ∷ [] }
      ∷ record { id = 1; user_id = ""; ch = [] }
      ∷ [];
}

abbrev traffic : List Sent
traffic = to_all "a" ∷ to_user "mia" "b" ∷ to_user "" "c" ∷ []

send_all-served_example : (send_all traffic bus).subs ≡ served traffic bus.subs
send_all-served_example = send_all-served traffic bus (omega arith, (omega arith, tt))
