-- ===== src/Stripe/Layout.antt =====
-- Reading the serialized form of a descriptor back.
use mathlib.Core.Option.{some-injective}
use revika.Base.{
  ℕ, ◌%◌, ap₂, ◌+◌, ◌*◌, ◌<◌, ◌≡◌, refl, ap, sym, ◌∙◌, inl, inr, true, false, ◌||◌, not, Option,
  none, some, List, [], ◌∷◌, ◌++◌, arith, ltb, leb, eqb, if◌then◌else◌, Bool-cases, Bytes, length,
  take, drop, be_bytes, of_be, All, length-append, length-be_bytes, of_be-be_bytes,
  take-append_left, drop-append_left, drop-append_past, append-injective,
}
use revika.Stripe.{ShardId, Descriptor, concat_ids, marshal, cut_ids, unmarshal}

abbrev pub Addresses : List ShardId → Type 0
Addresses shards = All (λ s. length s ≡ 32) shards

length-concat_ids :
    (shards : List ShardId) → Addresses shards → length (concat_ids shards) ≡ length shards * 32
unfolding concat_ids
length-concat_ids [] h = refl
length-concat_ids (s ∷ shards) (h, hs) =
    length-append s (concat_ids shards) ∙ omega (arith, h, length-concat_ids shards hs)

cut_ids-concat_ids :
    (shards : List ShardId)
    → Addresses shards
    → cut_ids (length shards) (concat_ids shards) ≡ shards
unfolding cut_ids concat_ids
cut_ids-concat_ids [] h = refl
cut_ids-concat_ids (s ∷ shards) (h, hs) =
    rw
      (
        take-append_left 32 s (concat_ids shards) h,
        drop-append_left 32 s (concat_ids shards) h,
        cut_ids-concat_ids shards hs,
      )
      refl

-- What `marshal` writes, when it writes.
pub record IsWritten (d : Descriptor) (b : Bytes) : Type 0 where
  pub has_k : 0 < d.k
  pub has_m : 0 < d.m
  pub k_fits : d.k < 65536
  pub m_fits : d.m < 65536
  pub whole : length d.shards ≡ d.k + d.m
  pub bytes :
      b ≡ be_bytes 2 d.k ++ (be_bytes 2 d.m ++ (be_bytes 2 (d.k + d.m) ++ concat_ids d.shards))

pub marshal-IsWritten : (d : Descriptor) (b : Bytes) → marshal d ≡ some b → IsWritten d b
unfolding marshal
marshal-IsWritten d b h = elim (Bool-cases (eqb d.k 0 || eqb d.m 0)) [
  | inl bad ↦ absurd (let e : none ≡ some b = rw bad at h in cc)
  | inr positive ↦ elim (Bool-cases (ltb 0xffff d.k || ltb 0xffff d.m)) [
    | inl big ↦ absurd (let e : none ≡ some b = rw (positive, big) at h in cc)
    | inr small ↦ elim (Bool-cases (eqb (length d.shards) (d.k + d.m))) [
      | inr short ↦ absurd (let e : none ≡ some b = rw (positive, small, short) at h in cc)
      | inl whole ↦ record {
        has_k = ground arith;
        has_m = ground arith;
        k_fits = ground arith;
        m_fits = ground arith;
        whole = ground arith;
        bytes = sym (some-injective _ _ (rw (positive, small, whole) at h));
      }
    ]
  ]
]

-- The word of 16 bits that is read for a number.
of_be-low : (v : ℕ) → of_be (be_bytes 2 v) ≡ v % 65536
unfolding of_be be_bytes
of_be-low v = omega arith

-- The fields that `unmarshal` cuts out.
module _ (k m n : ℕ) (ids : Bytes) where
  abbrev layout : Bytes
  layout = be_bytes 2 k ++ (be_bytes 2 m ++ (be_bytes 2 n ++ ids))

  length-layout : length layout ≡ 6 + length ids
  length-layout =
      rw
        (
          length-append (be_bytes 2 k) (be_bytes 2 m ++ (be_bytes 2 n ++ ids)),
          length-append (be_bytes 2 m) (be_bytes 2 n ++ ids),
          length-append (be_bytes 2 n) ids,
          length-be_bytes 2 k,
          length-be_bytes 2 m,
          length-be_bytes 2 n,
        )
        (omega arith)

  field_k : take 2 layout ≡ be_bytes 2 k
  field_k = take-append_left 2 (be_bytes 2 k) _ (length-be_bytes 2 k)

  field_m : take 2 (drop 2 layout) ≡ be_bytes 2 m
  field_m =
      ap (take 2) (drop-append_left 2 (be_bytes 2 k) _ (length-be_bytes 2 k))
      ∙ take-append_left 2 (be_bytes 2 m) _ (length-be_bytes 2 m)

  field_n : take 2 (drop 4 layout) ≡ be_bytes 2 n
  field_n =
      ap (take 2) (
        drop-append_past 2 2 (be_bytes 2 k) _ (length-be_bytes 2 k)
        ∙ drop-append_left 2 (be_bytes 2 m) _ (length-be_bytes 2 m))
      ∙ take-append_left 2 (be_bytes 2 n) _ (length-be_bytes 2 n)

  field_ids : drop 6 layout ≡ ids
  field_ids =
      drop-append_past 2 4 (be_bytes 2 k) _ (length-be_bytes 2 k)
      ∙ drop-append_past 2 2 (be_bytes 2 m) _ (length-be_bytes 2 m)
      ∙ drop-append_left 2 (be_bytes 2 n) _ (length-be_bytes 2 n)

-- The tests of `unmarshal` on the fields that were read.
abbrev judged : ℕ → ℕ → ℕ → ℕ → Bytes → Option Descriptor
judged size k m n ids =
    if ltb size 6
    then none
    else if eqb k 0 || eqb m 0
    then none
    else if not (eqb n (k + m))
    then none
    else if not (eqb size (6 + n * 32))
    then none
    else some (record { k = k; m = m; shards = cut_ids n ids })

judged_lem :
    (k m : ℕ) (ids : Bytes)
    → 0 < k
    → 0 < m
    → judged (6 + (k + m) * 32) k m ((k + m) % 65536) ids ≡ (
        if leb (k + m) 0xffff
        then some (record { k = k; m = m; shards = cut_ids (k + m) ids })
        else none)
judged_lem k m ids hk hm = elim (Bool-cases (leb (k + m) 0xffff)) [
  | inl fits ↦
      let low : (k + m) % 65536 ≡ k + m = ground arith in
      let room : ltb (6 + (k + m) * 32) 6 ≡ false = ground arith in
      let some_k : eqb k 0 ≡ false = ground arith in
      let some_m : eqb m 0 ≡ false = ground arith in
      let same : eqb (k + m) (k + m) ≡ true = ground arith in
      let size : eqb (6 + (k + m) * 32) (6 + (k + m) * 32) ≡ true = ground arith in
      rw (fits, low, room, some_k, some_m, same, size) refl
  | inr big ↦
      let room : ltb (6 + (k + m) * 32) 6 ≡ false = ground arith in
      let some_k : eqb k 0 ≡ false = ground arith in
      let some_m : eqb m 0 ≡ false = ground arith in
      let differ : eqb ((k + m) % 65536) (k + m) ≡ false = ground arith in
      rw (big, room, some_k, some_m, differ) refl
]

-- A descriptor that marshals, with identifiers of 32 bytes, is read back if K + M fits in 16 bits;
-- if not, its serialized form is refused.
pub unmarshal-marshal :
    (d : Descriptor) (b : Bytes)
    → Addresses d.shards
    → marshal d ≡ some b
    → unmarshal b ≡ (if leb (d.k + d.m) 0xffff then some d else none)
unfolding unmarshal
unmarshal-marshal d b addresses h =
    let w = marshal-IsWritten d b h in
    let ids = concat_ids d.shards in
    let cut : cut_ids (d.k + d.m) ids ≡ d.shards =
      ap (λ n. cut_ids n ids) (sym w.whole) ∙ cut_ids-concat_ids d.shards addresses in
    let read : unmarshal (layout d.k d.m (d.k + d.m) ids)
        ≡ judged (6 + (d.k + d.m) * 32) d.k d.m ((d.k + d.m) % 65536) ids =
      rw
        (
          length-layout d.k d.m (d.k + d.m) ids,
          length-concat_ids d.shards addresses,
          w.whole,
          field_k d.k d.m (d.k + d.m) ids,
          field_m d.k d.m (d.k + d.m) ids,
          field_n d.k d.m (d.k + d.m) ids,
          field_ids d.k d.m (d.k + d.m) ids,
          of_be-be_bytes 2 d.k w.k_fits,
          of_be-be_bytes 2 d.m w.m_fits,
          of_be-low (d.k + d.m),
        )
        refl in
    rw w.bytes (read ∙ judged_lem d.k d.m ids w.has_k w.has_m ∙ rw cut refl)

-- Descriptors with identifiers of 32 bytes that have one serialized form are the same: K, M, and
-- the identifiers in their order.
pub marshal-injective :
    (d d' : Descriptor) (b : Bytes)
    → Addresses d.shards
    → Addresses d'.shards
    → marshal d ≡ some b
    → marshal d' ≡ some b
    → d ≡ d'
marshal-injective d d' b hs hs' h h' =
    let w = marshal-IsWritten d b h in
    let w' = marshal-IsWritten d' b h' in
    let e = sym w.bytes ∙ w'.bytes in
    let (e_k, rest) =
      append-injective 2 _ _ _ _ (length-be_bytes 2 d.k) (length-be_bytes 2 d'.k) e in
    let (e_m, rest_m) =
      append-injective 2 _ _ _ _ (length-be_bytes 2 d.m) (length-be_bytes 2 d'.m) rest in
    let (e_n, ids) =
      append-injective 2 _ _ _ _ (length-be_bytes 2 (d.k + d.m)) (length-be_bytes 2 (d'.k + d'.m))
        rest_m in
    let same_k : d.k ≡ d'.k =
      sym (of_be-be_bytes 2 d.k w.k_fits) ∙ ap of_be e_k ∙ of_be-be_bytes 2 d'.k w'.k_fits in
    let same_m : d.m ≡ d'.m =
      sym (of_be-be_bytes 2 d.m w.m_fits) ∙ ap of_be e_m ∙ of_be-be_bytes 2 d'.m w'.m_fits in
    let count : length d.shards ≡ length d'.shards =
      w.whole ∙ ap₂ ◌+◌ same_k same_m ∙ sym w'.whole in
    let same_shards : d.shards ≡ d'.shards =
      sym (cut_ids-concat_ids d.shards hs)
      ∙ ap₂ cut_ids count ids
      ∙ cut_ids-concat_ids d'.shards hs' in
    λ i. record { k = same_k i; m = same_m i; shards = same_shards i }
