-- ===== src/Net/RootSelect.antt =====
-- internal/net/root.go: which of the root records that are found for an owner counts (`Select`). What a
-- record's bytes decode to, and whether its signature holds, is the parameter `read`: the sequence
-- number of a record that does, a 64-bit word, and nothing of another.
pub mod Agreed
use revika.Base.{
  ℕ, zero, suc, Bool, true, false, ◌&&◌, ◌||◌, Option, none, some, List, [], ◌∷◌, ltb, eqb,
  if◌then◌else◌, Bytes,
}

-- `bytes.Compare(a, b) < 0`
unfoldable pub bytes_ltb : Bytes → Bytes → Bool
bytes_ltb [] [] = false
bytes_ltb [] (b ∷ ys) = true
bytes_ltb (a ∷ xs) [] = false
bytes_ltb (a ∷ xs) (b ∷ ys) = let rest = bytes_ltb xs ys in ltb a b || (eqb a b && rest)

-- The best record so far: its index, its sequence number and its bytes.
pub record Best : Type 0 where
  pub index : ℕ
  pub seq : ℕ
  pub value : Bytes

-- A later record takes the place of the best if its number is higher, or is the same with bytes that
-- come first.
unfoldable pub beats : ℕ → Bytes → Best → Bool
unfolding bytes_ltb
beats seq value best = ltb best.seq seq || (eqb seq best.seq && bytes_ltb value best.value)

abbrev pub better : Option Best → ℕ → ℕ → Bytes → Best
better none i seq value = record { index = i; seq = seq; value = value }
better (some best) i seq value =
    if beats seq value best then record { index = i; seq = seq; value = value } else best

abbrev pub consider : Option Best → ℕ → Option ℕ → Bytes → Option Best
consider best i none value = best
consider best i (some seq) value = some (better best i seq value)

module _ (read : Bytes → Option ℕ) where
  unfoldable pub select_loop : Option Best → ℕ → List Bytes → Option Best
  unfolding beats
  select_loop best i [] = best
  select_loop best i (v ∷ values) = select_loop (consider best i (read v) v) (suc i) values

  -- `Select`: nothing if no record can be read.
  unfoldable pub select : List Bytes → Option Best
  unfolding select_loop
  select values = select_loop none 0 values
