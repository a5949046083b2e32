-- ===== src/Base/Encoding.antt =====
-- Go's encoding/binary: big-endian words as strings of bytes.
use Prim.Native.Nat.{ℕ, zero, suc, ◌+◌, ◌*◌, ◌/◌, ◌%◌, ◌^◌, ◌<◌}
use mathlib.Core.Path.{◌≡◌, refl, sym, ap, ◌∙◌}
use mathlib.Core.List.{[], ◌∷◌, ◌++◌, append-nil, append_assoc}
use native.Mathlib.Nat.{pow-suc}
use native.Mathlib.Omega.{arith}
use revika.Base.Equality.{Bytes}
use revika.Base.Lists.{length, length-append}

-- `PutUint16`, `PutUint32` and `PutUint64` at the widths 2, 4 and 8: the low bytes of the number.
unfoldable pub be_bytes : ℕ → ℕ → Bytes
be_bytes zero v = []
be_bytes (suc w) v = be_bytes w (v / 256) ++ (v % 256 ∷ [])

abbrev of_be_loop : ℕ → Bytes → ℕ
of_be_loop acc [] = acc
of_be_loop acc (b ∷ bs) = of_be_loop (acc * 256 + b) bs

-- `Uint16`, `Uint32` and `Uint64`
unfoldable pub of_be : Bytes → ℕ
of_be bs = of_be_loop 0 bs

pub length-be_bytes : (w v : ℕ) → length (be_bytes w v) ≡ w
unfolding be_bytes
length-be_bytes zero v = refl
length-be_bytes (suc w) v =
    length-append (be_bytes w (v / 256)) (v % 256 ∷ [])
    ∙ (rw (length-be_bytes w (v / 256)) (omega arith))

shift_in : (acc p v : ℕ) → (acc * p + v / 256) * 256 + v % 256 ≡ acc * (p * 256) + v
shift_in acc p v = grind arith

of_be_loop-be_bytes :
    (w v acc : ℕ) (rest : Bytes)
    → v < 256 ^ w
    → of_be_loop acc (be_bytes w v ++ rest) ≡ of_be_loop (acc * 256 ^ w + v) rest
unfolding be_bytes
of_be_loop-be_bytes zero v acc rest h = ap (λ a. of_be_loop a rest) (omega arith)
of_be_loop-be_bytes (suc w) v acc rest h =
    ap (of_be_loop acc) (append_assoc (be_bytes w (v / 256)) (v % 256 ∷ []) rest)
    ∙ of_be_loop-be_bytes w (v / 256) acc (v % 256 ∷ rest) (grind arith)
    ∙ (rw (pow-suc 256 w) (ap (λ a. of_be_loop a rest) (shift_in acc (256 ^ w) v)))

-- A number that fits in the width is read back.
pub of_be-be_bytes : (w v : ℕ) → v < 256 ^ w → of_be (be_bytes w v) ≡ v
unfolding of_be
of_be-be_bytes w v h =
    ap (of_be_loop 0) (sym (append-nil (be_bytes w v)))
    ∙ of_be_loop-be_bytes w v 0 [] h
    ∙ omega arith
