-- ===== src/Notification/Delivery.antt =====
-- usecase/notification/bus.go: what a slow subscriber still gets.
mod Examples
use baru_reso_headless_contr.Prelude.{
  subst, ℕ, zero, suc, ◌+◌, ◌-◌, ◌≤◌, ◌≡◌, refl, sym, ap, ◌∙◌, Bool, true, false, ◌&&◌, not, Option,
  none, some, List, [], ◌∷◌, ◌++◌, String, str_eq, eq_iff, ltb, if◌then◌else◌, length, drop,
  length-append, arith, Bool-cases, inl, inr, All,
}
use baru_reso_headless_contr.Notification.{
  subscriber_buffer_size, Subscriber, MemoryBus, bus_send, send_to, publish, publish_to,
}
use baru_reso_headless_contr.Notification.Buffers.{
  keep_last, length-keep_last, bus_send-keep_last, keep_last-append, append_assoc, keep_last_short,
}

-- The events of a sequence that are meant for a user.
pub data Sent : Type 0 where
  to_all : String → Sent
  to_user : String → String → Sent

unfoldable pub send : Sent → MemoryBus → MemoryBus
send (to_all ev) b = publish (some ev) b
send (to_user user ev) b = publish_to user (some ev) b

unfoldable pub send_all : List Sent → MemoryBus → MemoryBus
send_all [] b = b
send_all (x ∷ xs) b = send_all xs (send x b)

abbrev pub meant_for : String → List Sent → List String
meant_for user [] = []
meant_for user (to_all ev ∷ xs) = ev ∷ meant_for user xs
meant_for user (to_user u ev ∷ xs) =
    if str_eq user u && not (str_eq u "") then ev ∷ meant_for user xs else meant_for user xs

-- What each subscriber has after a sequence: the last events of its buffer and of those meant for it.
abbrev pub served : List Sent → List Subscriber → List Subscriber
served xs [] = []
served xs (s ∷ ss) =
    record s { ch = keep_last subscriber_buffer_size (s.ch ++ meant_for s.user_id xs) }
    ∷ served xs ss

abbrev pub Fits : Subscriber → Type 0
Fits s = length s.ch ≤ subscriber_buffer_size

meant_for_cons :
    (user : String) (x : Sent) (xs : List Sent)
    → meant_for user (x ∷ xs) ≡ meant_for user (x ∷ []) ++ meant_for user xs
meant_for_cons user (to_all ev) xs = refl
meant_for_cons user (to_user u ev) xs = ground arith

with_buffer : (s : Subscriber) (ch : List String) → s.ch ≡ ch → s ≡ record s { ch = ch }
with_buffer s ch e = ap (λ c. record s { ch = c }) e

served_none : (ss : List Subscriber) → All Fits ss → served [] ss ≡ ss
served_none [] fits = refl
served_none (s ∷ ss) fits = ground (
  arith,
  with_buffer s (keep_last 64 (s.ch ++ [])) (sym (keep_last_short s.ch fits.0)),
  served_none ss fits.1,
)

served_twice :
    (x : Sent) (xs : List Sent) (ss : List Subscriber)
    → served xs (served (x ∷ []) ss) ≡ served (x ∷ xs) ss
served_twice x xs [] = refl
served_twice x xs (s ∷ ss) =
    let one = meant_for s.user_id (x ∷ []) in
    let rest = meant_for s.user_id xs in
    let buffers : keep_last 64 (keep_last 64 (s.ch ++ one) ++ rest)
        ≡ keep_last 64 (s.ch ++ meant_for s.user_id (x ∷ xs)) =
      keep_last-append 64 (s.ch ++ one) rest
      ∙ ap (keep_last 64) (
          append_assoc s.ch one rest
          ∙ ap (λ ys. s.ch ++ ys) (sym (meant_for_cons s.user_id x xs))) in
    ap (λ c. record s { ch = c } ∷ served xs (served (x ∷ []) ss)) buffers
    ∙ ap (λ ts. record s { ch = keep_last 64 (s.ch ++ meant_for s.user_id (x ∷ xs)) } ∷ ts)
        (served_twice x xs ss)

served-Fits : (xs : List Sent) (ss : List Subscriber) → All Fits (served xs ss)
served-Fits xs [] = tt
served-Fits xs (s ∷ ss) = (length-keep_last 64 (s.ch ++ meant_for s.user_id xs), served-Fits xs ss)

broadcast_served :
    (ev : String) (ss : List Subscriber)
    → All Fits ss
    → send_to (λ user. true) ev ss ≡ served (to_all ev ∷ []) ss
unfolding send_to
broadcast_served ev [] fits = refl
broadcast_served ev (s ∷ ss) fits =
    ground (arith, bus_send-keep_last ev s.ch fits.0, broadcast_served ev ss fits.1)

addressed_served :
    (u ev : String) (ss : List Subscriber)
    → All Fits ss
    → str_eq u "" ≡ false
    → send_to (λ user. str_eq user u) ev ss ≡ served (to_user u ev ∷ []) ss
unfolding send_to
addressed_served u ev [] fits named = refl
addressed_served u ev (s ∷ ss) fits named = elim (Bool-cases (str_eq s.user_id u)) [
  | inl his ↦
      rw (his, named)
        (ground (arith, bus_send-keep_last ev s.ch fits.0, addressed_served u ev ss fits.1 named))
  | inr not_his ↦ rw not_his (
      ground (
        arith,
        with_buffer s (keep_last 64 (s.ch ++ [])) (sym (keep_last_short s.ch fits.0)),
        addressed_served u ev ss fits.1 named,
      ))
]

served_unnamed :
    (u ev : String) (ss : List Subscriber)
    → All Fits ss
    → str_eq u "" ≡ true
    → served (to_user u ev ∷ []) ss ≡ ss
served_unnamed u ev [] fits unnamed = refl
served_unnamed u ev (s ∷ ss) fits unnamed = ground (
  arith,
  unnamed,
  with_buffer s (keep_last 64 (s.ch ++ [])) (sym (keep_last_short s.ch fits.0)),
  served_unnamed u ev ss fits.1 unnamed,
)

send-served :
    (x : Sent) (b : MemoryBus) → All Fits b.subs → (send x b).subs ≡ served (x ∷ []) b.subs
unfolding send publish publish_to
send-served (to_all ev) b fits = broadcast_served ev b.subs fits
send-served (to_user u ev) b fits = elim (Bool-cases (str_eq u "")) [
  | inl unnamed ↦ rw unnamed (sym (served_unnamed u ev b.subs fits unnamed))
  | inr named ↦ rw named (addressed_served u ev b.subs fits named)
]

-- After any sequence of publications that a subscriber does not read, its buffer has the last 64
-- events of its earlier ones and those meant for it, in order: those for all, and those for its
-- user, if the user has a name. This holds of every subscriber whose buffer had no more than 64.
pub send_all-served :
    (xs : List Sent) (b : MemoryBus) → All Fits b.subs → (send_all xs b).subs ≡ served xs b.subs
unfolding send_all
send_all-served [] b fits = sym (served_none b.subs fits)
send_all-served (x ∷ xs) b fits =
    send_all-served xs (send x b)
      (subst (All Fits) (sym (send-served x b fits)) (served-Fits (x ∷ []) b.subs))
    ∙ ap (served xs) (send-served x b fits)
    ∙ served_twice x xs b.subs
