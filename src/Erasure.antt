-- ===== src/Erasure.antt =====
-- internal/erasure/erasure.go: the framing of a payload around the Reed-Solomon code. The code itself
-- (klauspost/reedsolomon) is a parameter; a missing shard is `none`, and so is the result of an error.
pub mod RoundTrip
use revika.Base.{
  ℕ, zero, suc, ◌+◌, ◌-◌, ◌*◌, Bool, ◌||◌, ◌&&◌, not, Option, none, some, List, [], ◌∷◌, ◌++◌, ltb,
  eqb, if◌then◌else◌, Bytes, length, take, drop, be_bytes, of_be, ◌>>=◌,
}
use revika.Repair.{Erasure}

abbrev pub header_size : ℕ
header_size = 8

pub record Params : Type 0 where
  pub k : ℕ
  pub m : ℕ

unfoldable pub total : Params → ℕ
total p = p.k + p.m

-- `validate`
unfoldable pub is_valid : Params → Bool
unfolding total
is_valid p = not (ltb p.k 1 || ltb p.m 1) && not (ltb 256 (total p))

-- `reedsolomon.Encoder`
pub record Codec : Type 0 where
  pub split : Bytes → Option (List Bytes)
  pub encode_parity : List Bytes → Option (List Bytes)
  pub reconstruct : List (Option Bytes) → Option (List Bytes)
  pub join : List Bytes → ℕ → Option Bytes

abbrev pub count_present : List (Option Bytes) → ℕ
count_present [] = 0
count_present (none ∷ shards) = count_present shards
count_present (some s ∷ shards) = suc (count_present shards)

abbrev pub first_length : List Bytes → ℕ
first_length [] = 0
first_length (s ∷ shards) = length s

-- The end of `Decode`: the header says how much of the joined shards is the payload.
unfoldable pub unframe : Bytes → Option Bytes
unframe payload =
    let orig = of_be (take header_size payload) in
    if ltb (length payload) header_size
    then none
    else if ltb (length payload - header_size) orig
    then none
    else some (take orig (drop header_size payload))

module _ (new_codec : ℕ → ℕ → Option Codec) where
  -- `encoder`
  unfoldable pub encoder : Params → Option Codec
  unfolding is_valid
  encoder p = if is_valid p then new_codec p.k p.m else none

  unfoldable pub encode : Params → Bytes → Option (List Bytes)
  unfolding encoder
  encode p bytes = do
    codec ← encoder p
    shards ← codec.split (be_bytes 8 (length bytes) ++ bytes)
    codec.encode_parity shards

  -- `Decode` on shards that are enough.
  abbrev pub decode_present : Params → Codec → List (Option Bytes) → Option Bytes
  decode_present p codec shards = do
    rebuilt ← codec.reconstruct shards
    payload ← codec.join rebuilt (p.k * first_length rebuilt)
    unframe payload

  abbrev pub decode_with : Params → List (Option Bytes) → Codec → Option Bytes
  decode_with p shards codec =
      if not (eqb (length shards) (total p))
      then none
      else if ltb (count_present shards) p.k
      then none
      else decode_present p codec shards

  unfoldable pub decode : Params → List (Option Bytes) → Option Bytes
  unfolding encoder total unframe
  decode p shards = do codec ← encoder p; decode_with p shards codec

  -- The code of a file's parameters, as repair uses it.
  abbrev pub code_of : Params → Erasure
  code_of p = record { data_shards = p.k; decode = decode p; encode = encode p }
