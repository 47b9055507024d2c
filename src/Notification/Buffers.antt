-- ===== src/Notification/Buffers.antt =====
-- usecase/notification/bus.go: a full buffer keeps the last events.
use baru_reso_headless_contr.Prelude.{
  ℕ, suc, ◌+◌, ◌-◌, ◌≤◌, ◌≡◌, refl, sym, ap, ◌∙◌, List, [], ◌∷◌, ◌++◌, String, ltb, length, drop,
  length-append, arith, Bool-cases, inl, inr,
}
use baru_reso_headless_contr.Notification.{subscriber_buffer_size, bus_send}

-- The last `n` elements.
abbrev pub keep_last : ℕ → List String → List String
keep_last n xs = drop (length xs - n) xs

drop_append : (n : ℕ) (xs ys : List String) → n ≤ length xs → drop n (xs ++ ys) ≡ drop n xs ++ ys
drop_append ℕ.zero xs ys h = refl
drop_append (suc n) [] ys h = absurd (omega arith)
drop_append (suc n) (x ∷ xs) ys h = drop_append n xs ys (omega arith)

drop_twice : (m n k : ℕ) (xs : List String) → k ≡ n + m → drop m (drop n xs) ≡ drop k xs
drop_twice m ℕ.zero k xs e = ap (λ i. drop i xs) (omega arith)
drop_twice ℕ.zero (suc n) ℕ.zero [] e = refl
drop_twice ℕ.zero (suc n) (suc k) [] e = refl
drop_twice (suc m) (suc n) ℕ.zero [] e = refl
drop_twice (suc m) (suc n) (suc k) [] e = refl
drop_twice m (suc n) ℕ.zero (x ∷ xs) e = absurd (omega arith)
drop_twice m (suc n) (suc k) (x ∷ xs) e = drop_twice m n k xs (omega arith)

length-drop : (n : ℕ) (xs : List String) → length (drop n xs) ≡ length xs - n
length-drop ℕ.zero xs = omega arith
length-drop (suc n) [] = omega arith
length-drop (suc n) (x ∷ xs) = omega (arith, length-drop n xs)

pub length-keep_last : (n : ℕ) (xs : List String) → length (keep_last n xs) ≤ n
length-keep_last n xs = omega (arith, length-drop (length xs - n) xs)

drop_all : (n : ℕ) (xs : List String) → n ≡ 0 → drop n xs ≡ xs
drop_all ℕ.zero xs e = refl
drop_all (suc n) xs e = absurd (omega arith)

pub bus_send-keep_last :
    (ev : String) (ch : List String)
    → length ch ≤ subscriber_buffer_size
    → bus_send ev ch ≡ keep_last subscriber_buffer_size (ch ++ (ev ∷ []))
unfolding bus_send
bus_send-keep_last ev ch h = elim (Bool-cases (ltb (length ch) 64)) [
  | inl room ↦ rw room (
      sym (
        drop_all (length (ch ++ (ev ∷ [])) - 64) (ch ++ (ev ∷ []))
          (ground (arith, length-append ch (ev ∷ [])))))
  | inr full ↦
      let is_full : length ch ≡ 64 = ground arith in
      let one : length (ch ++ (ev ∷ [])) - 64 ≡ 1 = omega (arith, length-append ch (ev ∷ [])) in
      rw full (rw one (sym (drop_append 1 ch (ev ∷ []) (omega arith))))
]

pub keep_last-append :
    (n : ℕ) (xs ys : List String) → keep_last n (keep_last n xs ++ ys) ≡ keep_last n (xs ++ ys)
keep_last-append n xs ys =
    let d = length xs - n in
    ap (λ zs. drop (length (drop d xs ++ ys) - n) zs) (sym (drop_append d xs ys (omega arith)))
    ∙ drop_twice (length (drop d xs ++ ys) - n) d (length (xs ++ ys) - n) (xs ++ ys)
        (omega (arith, length-append xs ys, length-append (drop d xs) ys, length-drop d xs))

append_nil : (xs : List String) → xs ++ [] ≡ xs
append_nil [] = refl
append_nil (x ∷ xs) = ap (λ ys. x ∷ ys) (append_nil xs)

pub append_assoc : (xs ys zs : List String) → (xs ++ ys) ++ zs ≡ xs ++ (ys ++ zs)
append_assoc [] ys zs = refl
append_assoc (x ∷ xs) ys zs = ap (λ ws. x ∷ ws) (append_assoc xs ys zs)

pub keep_last_short :
    (ch : List String)
    → length ch ≤ subscriber_buffer_size
    → keep_last subscriber_buffer_size (ch ++ []) ≡ ch
keep_last_short ch h = rw (append_nil ch) (drop_all (length ch - 64) ch (omega arith))
