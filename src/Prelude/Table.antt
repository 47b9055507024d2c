-- ===== src/Prelude/Table.antt =====
-- Rows of a database table: the parts of UPDATE and SELECT statements.
use Prim.Native.Nat.{ℕ}
use mathlib.Core.Path.{◌≡◌}
use mathlib.Core.Bool.{Bool, true, false}
use mathlib.Core.List.{List, [], ◌∷◌}
use native.Mathlib.Omega.{arith}
use baru_reso_headless_contr.Prelude.Tests.{leb, if◌then◌else◌}
use baru_reso_headless_contr.Prelude.Lists.{All}

module _ {ℓ} {A : Type ℓ} where
  -- UPDATE … SET change WHERE chosen
  unfoldable pub change_where : (A → Bool) → (A → A) → List A → List A
  change_where chosen change [] = []
  change_where chosen change (a ∷ rows) =
      (if chosen a then change a else a) ∷ change_where chosen change rows

  -- SELECT … WHERE chosen
  unfoldable pub select : (A → Bool) → List A → List A
  select chosen [] = []
  select chosen (a ∷ rows) = let rest = select chosen rows in if chosen a then a ∷ rest else rest

  unfoldable pub insert_by : (A → ℕ) → A → List A → List A
  insert_by key a [] = a ∷ []
  insert_by key a (b ∷ rows) =
      let rest = insert_by key a rows in if leb (key a) (key b) then a ∷ b ∷ rows else b ∷ rest

  -- ORDER BY key
  unfoldable pub order_by : (A → ℕ) → List A → List A
  unfolding insert_by
  order_by key [] = []
  order_by key (a ∷ rows) = insert_by key a (order_by key rows)

  -- After an update that leaves nothing of what it chooses, nothing is left.
  pub All-change_where :
      (chosen : A → Bool) (change : A → A) (gone : A → Bool) (rows : List A)
      → ((a : A) → chosen a ≡ false → gone a ≡ false)
      → ((a : A) → chosen a ≡ true → gone (change a) ≡ false)
      → All (λ a. gone a ≡ false) (change_where chosen change rows)
  unfolding change_where
  All-change_where chosen change gone [] others moved = tt
  All-change_where chosen change gone (a ∷ rows) others moved =
      (ground (arith, others a, moved a), All-change_where chosen change gone rows others moved)

-- Two tables row by row.
abbrev pub Each {ℓ} : {A : Type ℓ} → (A → A → Type 0) → List A → List A → Type 0
Each R [] [] = Unit
Each R (a ∷ rows) (b ∷ rows') = R a b × Each R rows rows'
Each R _ _ = ⊥

-- An update row by row.
pub change_where-Each {ℓ} :
    {A : Type ℓ} (R : A → A → Type 0) (chosen : A → Bool) (change : A → A) (rows : List A)
    → ((a : A) → R a (if chosen a then change a else a))
    → Each R rows (change_where chosen change rows)
unfolding change_where
change_where-Each R chosen change [] each = tt
change_where-Each R chosen change (a ∷ rows) each =
    (each a, change_where-Each R chosen change rows each)
