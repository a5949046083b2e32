-- ===== src/Chunk/Cdc.antt =====
-- internal/chunk/cdc.go: chunks whose ends the content chooses. A read error ends the stream as its
-- end does, so that the reader is its bytes alone.
pub mod Laws
use revika.Base.{
  ℕ, zero, suc, ◌+◌, ◌-◌, ◌^◌, Bool, true, false, ◌&&◌, ◌||◌, List, [], ◌∷◌, ltb, leb, eqb, Option,
  none, some, if◌then◌else◌, Bytes, length,
}
use revika.Chunk.{Item, chunk, failed, stuck}
use revika.Chunk.Gear.{gear_step, mask_bits, masked_zero}

-- How filling a chunk ends: with its bytes and those left, and whether the stream ended before a cut.
pub record Filled : Type 0 where
  pub bytes : Bytes
  pub rest : Bytes
  pub ended : Bool

abbrev pub and_byte : ℕ → Filled → Filled
and_byte b f = record f { bytes = b ∷ f.bytes }

-- The inner loop: `room` is how many bytes the buffer still takes, `n` how many it holds.
unfoldable pub fill : ℕ → ℕ → ℕ → ℕ → ℕ → Bytes → Filled
unfolding gear_step masked_zero
fill min_size bits zero n gear bs = record { bytes = []; rest = bs; ended = false }
fill min_size bits (suc room) n gear [] = record { bytes = []; rest = []; ended = true }
fill min_size bits (suc room) n gear (b ∷ bs) =
    let gear' = gear_step gear b in
    let more = fill min_size bits room (suc n) gear' bs in
    if leb min_size (suc n) && masked_zero bits gear'
    then record { bytes = b ∷ []; rest = bs; ended = false }
    else and_byte b more

-- The last chunk, when the stream has ended.
abbrev pub final : Bytes → List Item
final [] = []
final (b ∷ bs) = chunk (b ∷ bs) ∷ []

-- The outer loop, on fuel.
unfoldable pub cdc_loop : ℕ → ℕ → ℕ → ℕ → Bytes → List Item
unfolding fill
cdc_loop zero min_size max_size bits bs = stuck ∷ []
cdc_loop (suc fuel) min_size max_size bits bs =
    let f = fill min_size bits max_size 0 0 bs in
    let more = cdc_loop fuel min_size max_size bits f.rest in
    if f.ended then final f.bytes else if eqb (length f.bytes) 0 then [] else chunk f.bytes ∷ more

-- The iterator once the mask is found.
abbrev pub cdc_masked : Bytes → ℕ → ℕ → Option ℕ → List Item
cdc_masked bs min_size max_size none = stuck ∷ []
cdc_masked bs min_size max_size (some bits) = cdc_loop (suc (length bs)) min_size max_size bits bs

-- `CDC`. A chunk takes a byte at least, so one round more than there are bytes is enough. The mask's
-- loop has 64 rounds, after which no bit of the shifted 1 is left and it never ends.
unfoldable pub cdc : Bytes → ℕ → ℕ → ℕ → List Item
unfolding cdc_loop mask_bits
cdc bs min_size target_size max_size =
    if eqb min_size 0 || (eqb target_size 0 || eqb max_size 0)
    then failed ∷ []
    else if ltb target_size min_size || ltb max_size target_size
    then failed ∷ []
    else cdc_masked bs min_size max_size (mask_bits 64 0 target_size)
