-- ===== src/Chunk/Cdc/Laws.antt =====
-- The chunks of `CDC` are its input, cut within the bounds.
use revika.Base.{
  sym, length-append, ℕ, zero, suc, ◌+◌, ◌≤◌, ◌<◌, ◌^◌, some, ◌≡◌, refl, ap, ◌∙◌, inl, inr, Bool,
  true, false, not, ◌&&◌, ◌||◌, List, [], ◌∷◌, ◌++◌, arith, ltb, leb, eqb, Bytes, length,
  append-nil, Bool-cases, subst,
}
use revika.Chunk.{Item, chunk, failed, stuck}
use revika.Chunk.Gear.{gear_step, shift_below, mask_bits, masked_zero}
use revika.Chunk.Fixed.{bytes_of}
use revika.Chunk.Cdc.{Filled, fill, final, cdc_loop, cdc}

-- Chunks of at least `low` and at most `high` bytes, but for the last, which has at least one.
unfoldable pub bounded : ℕ → ℕ → List Item → Bool
bounded low high [] = true
bounded low high (chunk bs ∷ []) = ltb 0 (length bs) && leb (length bs) high
bounded low high (chunk bs ∷ item ∷ items) =
    leb low (length bs) && (leb (length bs) high && bounded low high (item ∷ items))
bounded low high (failed ∷ items) = false
bounded low high (stuck ∷ items) = false

-- What a filled chunk is: a first part of the stream that fits in the room; a cut comes at the lower
-- bound at the earliest, and without one the stream is used up.
record IsFilled (min_size room n : ℕ) (bs : Bytes) (f : Filled) : Type 0 where
  pub whole : f.bytes ++ f.rest ≡ bs
  pub fits : length f.bytes ≤ room
  pub cut : f.ended || (leb min_size (n + length f.bytes) || eqb (length f.bytes) room) ≡ true
  pub over : not f.ended || eqb (length f.rest) 0 ≡ true

fill-IsFilled :
    (min_size bits room n gear : ℕ) (bs : Bytes)
    → IsFilled min_size room n bs (fill min_size bits room n gear bs)
unfolding fill
fill-IsFilled min_size bits zero n gear bs = record {
  whole = refl;
  fits = omega arith;
  cut = ground arith;
  over = refl;
}
fill-IsFilled min_size bits (suc room) n gear [] = record {
  whole = refl;
  fits = omega arith;
  cut = refl;
  over = refl;
}
fill-IsFilled min_size bits (suc room) n gear (b ∷ bs) =
    elim (Bool-cases (leb min_size (suc n) && masked_zero bits (gear_step gear b))) [
      | inl here ↦
          rw here
            (record { whole = refl; fits = omega arith; cut = ground (arith, here); over = refl })
      | inr later ↦
          let more = fill-IsFilled min_size bits room (suc n) (gear_step gear b) bs in
          rw later (record {
            whole = ap (λ l. b ∷ l) more.whole;
            fits = omega (arith, more.fits);
            cut = ground (arith, more.cut);
            over = more.over;
          })
    ]

bounded-cons :
    (low high : ℕ) (bs : Bytes) (items : List Item)
    → 0 < length bs
    → low ≤ length bs
    → length bs ≤ high
    → bounded low high items ≡ true
    → bounded low high (chunk bs ∷ items) ≡ true
unfolding bounded
bounded-cons low high bs [] p h h' e = ground arith
bounded-cons low high bs (item ∷ items) p h h' e = ground (arith, e)

final-bytes : (bs : Bytes) → bytes_of (final bs) ≡ bs
unfolding bytes_of
final-bytes [] = refl
final-bytes (b ∷ bs) = append-nil (b ∷ bs)

final-bounded : (low high : ℕ) (bs : Bytes) → length bs ≤ high → bounded low high (final bs) ≡ true
unfolding bounded
final-bounded low high [] h = refl
final-bounded low high (b ∷ bs) h = ground arith

empty_rest : (bs rest : Bytes) → eqb (length rest) 0 ≡ true → bs ++ rest ≡ bs
empty_rest bs [] h = append-nil bs
empty_rest bs (b ∷ rest) h = absurd (ground (arith, h))

-- What an iterator over the stream `bs` may yield: its bytes, within the bounds.
abbrev Cuts : ℕ → ℕ → Bytes → List Item → Type 0
Cuts low high bs items = (bytes_of items ≡ bs) × (bounded low high items ≡ true)

cdc_loop-Cuts :
    (fuel min_size max_size bits : ℕ) (bs : Bytes)
    → 0 < min_size
    → min_size ≤ max_size
    → length bs < fuel
    → Cuts min_size max_size bs (cdc_loop fuel min_size max_size bits bs)
unfolding cdc_loop bytes_of
cdc_loop-Cuts zero min_size max_size bits bs p q h = absurd (omega arith)
cdc_loop-Cuts (suc fuel) min_size max_size bits bs p q h =
    let f = fill min_size bits max_size 0 0 bs in
    let filled = fill-IsFilled min_size bits max_size 0 0 bs in
    elim (Bool-cases f.ended) [
      | inl ended ↦
          let used : eqb (length f.rest) 0 ≡ true = ground (arith, filled.over, ended) in
          rw ended (
            final-bytes f.bytes ∙ sym (empty_rest f.bytes f.rest used) ∙ filled.whole,
            final-bounded min_size max_size f.bytes filled.fits,
          )
      | inr cut ↦
          let size : min_size ≤ length f.bytes = ground (arith, filled.cut, cut) in
          let some_bytes : eqb (length f.bytes) 0 ≡ false = ground (arith, size) in
          let shorter : length f.rest < fuel =
            omega (arith, size, length-append f.bytes f.rest, ap length filled.whole) in
          let rest = cdc_loop-Cuts fuel min_size max_size bits f.rest p q shorter in
          rw (cut, some_bytes)
            (
              ap (λ l. f.bytes ++ l) rest.0 ∙ filled.whole,
              bounded-cons min_size max_size f.bytes _ (omega (arith, size)) size filled.fits
                  rest.1,
            )
    ]

-- Up to a target of 2 ^ 62 the mask's loop ends.
mask_bits-ends :
    (fuel bits target : ℕ)
    → target ≤ 2 ^ 62
    → bits ≤ 62
    → 62 < bits + fuel
    → (b : ℕ) × (mask_bits fuel bits target ≡ some b)
unfolding mask_bits
mask_bits-ends zero bits target t h f = absurd (omega arith)
mask_bits-ends (suc fuel) bits target t h f = elim (Bool-cases (shift_below bits target)) [
  | inr above ↦ (bits, rw above refl)
  | inl below ↦ elim (Bool-cases (eqb bits 62)) [
    | inr less ↦
        let next : suc bits ≤ 62 = ground (arith, less) in
        rw below (mask_bits-ends fuel (suc bits) target t next (omega arith))
    | inl last ↦ absurd (top bits last below)
  ]
]
  where
    top : (n : ℕ) → eqb n 62 ≡ true → shift_below n target ≡ true → ⊥
    top n e b =
        let same : n ≡ 62 = ground (arith, e) in
        let b' : ltb (2 ^ 62) target ≡ true = subst (λ m. shift_below m target ≡ true) same b in
        ground (arith, b', t)

-- With sizes that are in order and not 0, and a target of at most 2 ^ 62, the iterator comes to its end:
-- the chunks are the bytes of the stream, in order, each of at most the maximum and all but the last of
-- at least the minimum; the last has at least one byte.
pub cdc-chunks :
    (bs : Bytes) (min_size target_size max_size : ℕ)
    → 0 < min_size
    → min_size ≤ target_size
    → target_size ≤ max_size
    → target_size ≤ 2 ^ 62
    → (bytes_of (cdc bs min_size target_size max_size) ≡ bs)
      × (bounded min_size max_size (cdc bs min_size target_size max_size) ≡ true)
unfolding cdc
cdc-chunks bs min_size target_size max_size p q r t =
    let positive : eqb min_size 0 || (eqb target_size 0 || eqb max_size 0) ≡ false = ground arith in
    let ordered : ltb target_size min_size || ltb max_size target_size ≡ false = ground arith in
    let (bits, found) = mask_bits-ends 64 0 target_size t (omega arith) (omega arith) in
    rw (positive, ordered, found)
      (cdc_loop-Cuts (suc (length bs)) min_size max_size bits bs p (omega arith) (omega arith))
