-- ===== src/Tests/ChunkRuns.antt =====
-- Runs of the chunkers and of the framing of the erasure code.
use mathlib.Core.Option.{some-injective}
use revika.Base.{
  ℕ, zero, suc, ◌+◌, ◌*◌, ◌≤◌, ◌≡◌, refl, ap, sym, subst, ◌∙◌, true, Option, some, none, List, [],
  ◌∷◌, arith, Bytes, length, be_bytes, append-nil,
}
use revika.Chunk.{chunk, eof, failure, failed}
use revika.Chunk.Gear.{masked_zero}
use revika.Chunk.Gear.Runs.{roll, high_bytes-cut}
use revika.Chunk.Fixed.{fixed, bytes_of}
use revika.Chunk.Cdc.{cdc}
use revika.Chunk.Cdc.Laws.{bounded, cdc-chunks}
use revika.Repair.Survey.{Survivors, lost}
use revika.Repair.Restored.{IsStripe}
use revika.Erasure.{Params, Codec, first_length, encode, code_of}
use revika.Erasure.RoundTrip.{CodecLaws, encode-IsStripe}

abbrev text : Bytes
text = 1 ∷ 2 ∷ 3 ∷ 4 ∷ 5 ∷ []

fixed_run : fixed text eof 2 ≡ chunk (1 ∷ 2 ∷ []) ∷ chunk (3 ∷ 4 ∷ []) ∷ chunk (5 ∷ []) ∷ []
unfolding fixed
fixed_run = refl

fixed_failure : fixed text failure 2 ≡ chunk (1 ∷ 2 ∷ []) ∷ chunk (3 ∷ 4 ∷ []) ∷ failed ∷ []
unfolding fixed
fixed_failure = refl

-- Bytes from 232 on cut at the first chance.
cdc_run :
    cdc (1 ∷ 255 ∷ 255 ∷ 255 ∷ 255 ∷ 255 ∷ []) 2 4 5
    ≡ chunk (1 ∷ 255 ∷ []) ∷ chunk (255 ∷ 255 ∷ []) ∷ chunk (255 ∷ 255 ∷ []) ∷ []
unfolding cdc
cdc_run = refl

cdc-chunks_example : (bytes_of (cdc text 2 3 4) ≡ text) × (bounded 2 4 (cdc text 2 3 4) ≡ true)
cdc-chunks_example = cdc-chunks text 2 3 4 (omega arith) (omega arith) (omega arith) (omega arith)

high_bytes-cut_example : masked_zero 3 (roll 12345 (255 ∷ 240 ∷ 232 ∷ [])) ≡ true
high_bytes-cut_example =
    high_bytes-cut 3 12345 (255 ∷ 240 ∷ 232 ∷ []) (omega arith) refl
      (omega arith, (omega arith, (omega arith, tt)))

-- The code of one data and one parity shard: a copy.
abbrev pub first_of : List (Option Bytes) → Option (List Bytes)
first_of (some x ∷ shards) = some (x ∷ x ∷ [])
first_of (none ∷ some x ∷ shards) = some (x ∷ x ∷ [])
first_of shards = none

abbrev pub head_of : List Bytes → ℕ → Option Bytes
head_of [] n = none
head_of (x ∷ shards) n = some x

abbrev pub doubled : List Bytes → Option (List Bytes)
doubled [] = none
doubled (x ∷ shards) = some (x ∷ x ∷ [])

abbrev pub mirror : Codec
mirror = record {
  split = λ payload. some (payload ∷ [] ∷ []);
  encode_parity = doubled;
  reconstruct = first_of;
  join = head_of;
}

first_of-Survivors :
    (x : Bytes) (partial : List (Option Bytes))
    → Survivors (x ∷ x ∷ []) partial
    → 1 + lost partial ≤ 2
    → first_of partial ≡ some (x ∷ x ∷ [])
first_of-Survivors x [] s h = absurd s
first_of-Survivors x (some y ∷ partial) s h = ap (λ z. some (z ∷ z ∷ [])) s.0
first_of-Survivors x (none ∷ []) s h = absurd s
first_of-Survivors x (none ∷ some y ∷ partial) s h = ap (λ z. some (z ∷ z ∷ [])) s.0
first_of-Survivors x (none ∷ none ∷ []) s h = absurd (omega arith)
first_of-Survivors x (none ∷ none ∷ y ∷ partial) s h = absurd s

mirror-coded :
    (payload : Bytes) (shards coded : List Bytes)
    → mirror.split payload ≡ some shards
    → mirror.encode_parity shards ≡ some coded
    → payload ∷ payload ∷ [] ≡ coded
mirror-coded payload shards coded cut made =
    some-injective _ _ (ap doubled (some-injective _ _ cut) ∙ made)

mirror-laws : CodecLaws 1 1 mirror
mirror-laws = record {
  count =
      λ payload shards coded cut made. ap length (sym (mirror-coded payload shards coded cut made));
  rebuilds = λ payload shards coded partial cut made s h.
      let e = mirror-coded payload shards coded cut made in
      first_of-Survivors payload partial (subst (λ c. Survivors c partial) (sym e) s) h ∙ ap some e;
  joins = λ payload shards coded cut made. (
    [],
    ap (λ c. head_of c (1 * first_length coded)) (sym (mirror-coded payload shards coded cut made))
        ∙ ap some (sym (append-nil payload)),
  );
}

abbrev pub make : ℕ → ℕ → Option Codec
make (suc zero) (suc zero) = some mirror
make k m = none

pub make-laws : (k m : ℕ) (codec : Codec) → make k m ≡ some codec → CodecLaws k m codec
make-laws zero m codec h = absurd (cc h)
make-laws (suc zero) zero codec h = absurd (cc h)
make-laws (suc zero) (suc zero) codec h = subst (CodecLaws 1 1) (some-injective _ _ h) mirror-laws
make-laws (suc zero) (suc (suc m)) codec h = absurd (cc h)
make-laws (suc (suc k)) m codec h = absurd (cc h)

abbrev pub one_one : Params
one_one = record { k = 1; m = 1 }

abbrev framed : Bytes
framed = 0 ∷ 0 ∷ 0 ∷ 0 ∷ 0 ∷ 0 ∷ 0 ∷ 5 ∷ text

text-encoded : encode make one_one text ≡ some (framed ∷ framed ∷ [])
unfolding encode be_bytes
text-encoded = refl

encode-IsStripe_example : IsStripe (code_of make one_one) text (framed ∷ framed ∷ [])
encode-IsStripe_example =
    encode-IsStripe make make-laws one_one text (framed ∷ framed ∷ []) (omega arith) text-encoded
