-- ===== src/Chunk/Fixed.antt =====
-- internal/chunk/chunk.go: chunks of a fixed size.
use revika.Base.{
  ℕ, zero, suc, ◌<◌, ◌≡◌, refl, ap, ◌∙◌, inl, inr, Bool, true, false, ◌&&◌, List, [], ◌∷◌, ◌++◌,
  arith, ltb, leb, eqb, if◌then◌else◌, Bytes, length, take, drop, Bool-cases, take-append-drop,
  length-take_le, length-drop, append-nil,
}
use revika.Chunk.{End, eof, failure, Item, chunk, failed, stuck}

-- What the loop yields once `io.ReadFull` has found fewer bytes than a chunk.
abbrev pub last_items : Bytes → End → List Item
last_items bs failure = failed ∷ []
last_items [] eof = []
last_items (b ∷ bs) eof = chunk (b ∷ bs) ∷ []

unfoldable pub fixed_loop : ℕ → ℕ → Bytes → End → List Item
fixed_loop zero size bs end = stuck ∷ []
fixed_loop (suc fuel) size bs end =
    let rest = fixed_loop fuel size (drop size bs) end in
    if leb size (length bs) then chunk (take size bs) ∷ rest else last_items bs end

-- `Fixed`. Each full chunk takes a byte at least, so one round more than there are bytes is enough.
unfoldable pub fixed : Bytes → End → ℕ → List Item
unfolding fixed_loop
fixed bs end size = if eqb size 0 then failed ∷ [] else fixed_loop (suc (length bs)) size bs end

-- The bytes of the chunks that an iterator yields.
unfoldable pub bytes_of : List Item → Bytes
bytes_of [] = []
bytes_of (chunk bs ∷ items) = bs ++ bytes_of items
bytes_of (failed ∷ items) = bytes_of items
bytes_of (stuck ∷ items) = bytes_of items

-- Chunks of `size` bytes, but for the last, which has at least one.
unfoldable pub even_chunks : ℕ → List Item → Bool
even_chunks size [] = true
even_chunks size (chunk bs ∷ []) = ltb 0 (length bs) && leb (length bs) size
even_chunks size (chunk bs ∷ item ∷ items) = eqb (length bs) size && even_chunks size (item ∷ items)
even_chunks size (failed ∷ items) = false
even_chunks size (stuck ∷ items) = false

module _ (size : ℕ) (positive : 0 < size) where
  last_items-bytes : (bs : Bytes) → bytes_of (last_items bs eof) ≡ bs
  unfolding bytes_of
  last_items-bytes [] = refl
  last_items-bytes (b ∷ bs) = append-nil (b ∷ bs)

  last_items-even : (bs : Bytes) → length bs < size → even_chunks size (last_items bs eof) ≡ true
  unfolding even_chunks
  last_items-even [] h = refl
  last_items-even (b ∷ bs) h = ground arith

  even-cons :
      (bs : Bytes) (items : List Item)
      → length bs ≡ size
      → even_chunks size items ≡ true
      → even_chunks size (chunk bs ∷ items) ≡ true
  unfolding even_chunks
  even-cons bs [] h e = ground arith
  even-cons bs (item ∷ items) h e = ground (arith, e)

  fixed_loop-chunks :
      (fuel : ℕ) (bs : Bytes)
      → length bs < fuel
      → (bytes_of (fixed_loop fuel size bs eof) ≡ bs)
        × (even_chunks size (fixed_loop fuel size bs eof) ≡ true)
  unfolding fixed_loop bytes_of
  fixed_loop-chunks zero bs h = absurd (omega arith)
  fixed_loop-chunks (suc fuel) bs h = elim (Bool-cases (leb size (length bs))) [
    | inr short ↦ rw short (last_items-bytes bs, last_items-even bs (ground arith))
    | inl full ↦
        let shorter : length (drop size bs) < fuel = ground (arith, length-drop size bs) in
        let rest = fixed_loop-chunks fuel (drop size bs) shorter in
        rw full (
          ap (λ r. take size bs ++ r) rest.0 ∙ take-append-drop size bs,
          even-cons (take size bs) _ (length-take_le size bs (ground arith)) rest.1,
        )
  ]

-- At a size that is not 0, the chunks of a stream that ends well are its bytes, in order, all of that
-- size but for the last, which has at least one byte and at most the size.
pub fixed-chunks :
    (bs : Bytes) (size : ℕ)
    → 0 < size
    → (bytes_of (fixed bs eof size) ≡ bs) × (even_chunks size (fixed bs eof size) ≡ true)
unfolding fixed
fixed-chunks bs size positive =
    let off : eqb size 0 ≡ false = ground arith in
    rw off (fixed_loop-chunks size positive (suc (length bs)) bs (omega arith))
