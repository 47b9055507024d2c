-- ===== src/Notification.antt =====
-- usecase/notification/bus.go: `MemoryBus`. An event is kept as a text, a nil event is `none`. The
-- map of the subscribers is a list, newest first, since each of them is served by itself. Events
-- are published one at a time: the code takes the read lock, but counts on no concurrent writer.
pub mod Buffers
pub mod Delivery
use baru_reso_headless_contr.Prelude.{
  ℕ, suc, ◌+◌, Bool, true, false, ◌&&◌, not, Option, none, some, List, [], ◌∷◌, ◌++◌, String,
  str_eq, ltb, ◌==◌, if◌then◌else◌, length, drop,
}

abbrev pub subscriber_buffer_size : ℕ
subscriber_buffer_size = 64

-- `ch` has the unread events, oldest first.
pub record Subscriber : Type 0 where
  pub id : ℕ
  pub user_id : String
  pub ch : List String

pub record MemoryBus : Type 0 where
  pub next_id : ℕ
  pub subs : List Subscriber

abbrev pub new_bus : MemoryBus
new_bus = record { next_id = 0; subs = [] }

-- A full buffer loses its oldest event.
unfoldable pub bus_send : String → List String → List String
bus_send ev ch =
    if ltb (length ch) subscriber_buffer_size then ch ++ (ev ∷ []) else drop 1 ch ++ (ev ∷ [])

-- The loop over the subscribers, for those that are meant.
unfoldable pub send_to : (String → Bool) → String → List Subscriber → List Subscriber
unfolding bus_send
send_to meant ev [] = []
send_to meant ev (s ∷ ss) =
    (if meant s.user_id then record s { ch = bus_send ev s.ch } else s) ∷ send_to meant ev ss

pub publish : Option String → MemoryBus → MemoryBus
unfolding send_to
publish none b = b
publish (some ev) b = record b { subs = send_to (λ user. true) ev b.subs }

unfoldable pub publish_to : String → Option String → MemoryBus → MemoryBus
unfolding send_to
publish_to user none b = b
publish_to user (some ev) b =
    if str_eq user "" then b else record b { subs = send_to (λ u. str_eq u user) ev b.subs }

pub subscribe : String → MemoryBus → MemoryBus
subscribe user b = record {
  next_id = suc b.next_id;
  subs = record { id = suc b.next_id; user_id = user; ch = [] } ∷ b.subs;
}

pub subs_without : ℕ → List Subscriber → List Subscriber
subs_without id [] = []
subs_without id (s ∷ ss) = let rest = subs_without id ss in if s.id == id then rest else s ∷ rest

-- The cleanup function that `Subscribe` returns.
pub cleanup : ℕ → MemoryBus → MemoryBus
unfolding subs_without
cleanup id b = record b { subs = subs_without id b.subs }
