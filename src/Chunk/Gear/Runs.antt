-- ===== src/Chunk/Gear/Runs.antt =====
-- What the places of the table that hold no value do to the rolling hash.
use Prim.Native.Nat.{bit_xor, bit_xor-bitwise, differ, digits}
use native.Mathlib.Nat.{
  zero-add, suc-add, add-zero, add-suc, pow-suc, mul-sub, mul_comm, mod-add-div', mul-mod_left,
}
use revika.Base.{
  ◌-◌, sym, ℕ, zero, suc, ◌+◌, ◌*◌, ◌/◌, ◌%◌, ◌^◌, ◌≤◌, ◌≡◌, refl, ap, ◌∙◌, true, none, List, [],
  ◌∷◌, arith, Bytes, length, get_elem?, All,
}
use revika.Chunk.Gear.{gear_table, gear_step, masked_zero}

-- The hash after more bytes.
unfoldable pub roll : ℕ → Bytes → ℕ
unfolding gear_step
roll gear [] = gear
roll gear (b ∷ bs) = roll (gear_step gear b) bs

past_table {ℓ} : {A : Type ℓ} (xs : List A) (i : ℕ) → length xs ≤ i → get_elem? xs i ≡ none
past_table [] i h = refl
past_table (x ∷ xs) zero h = absurd (omega arith)
past_table (x ∷ xs) (suc i) h = past_table xs i (omega arith)

differ_zero : (x : ℕ) → differ x 0 ≡ x
differ_zero zero = refl
differ_zero (suc x) = refl

digits_zero : (fuel a : ℕ) → a ≤ fuel → digits (λ b. b) differ fuel a 0 ≡ a
digits_zero zero zero h = refl
digits_zero zero (suc a) h = absurd (omega arith)
digits_zero (suc fuel) zero h = refl
digits_zero (suc fuel) (suc a) h =
    rw (digits_zero fuel (suc a / 2) (omega arith), differ_zero (suc a % 2)) (omega arith)

bit_xor_zero : (a : ℕ) → bit_xor a 0 ≡ a
bit_xor_zero a = (λ i. bit_xor-bitwise a 0 i) ∙ digits_zero a a (omega arith)

step_high : (gear b : ℕ) → 232 ≤ b → gear_step gear b ≡ gear * 2 % 2 ^ 64
unfolding gear_step
step_high gear b h = rw (past_table gear_table b h) (bit_xor_zero (gear * 2 % 2 ^ 64))

-- A multiple of 2 ^ k: the low k bits are zero.
abbrev IsShifted : ℕ → ℕ → Type 0
IsShifted k gear = (q : ℕ) × (gear ≡ q * 2 ^ k)

pow_split : (a b : ℕ) → 2 ^ (a + b) ≡ 2 ^ a * 2 ^ b
pow_split zero b = rw zero-add (omega arith)
pow_split (suc a) b = rw (suc-add a b, pow-suc 2 (a + b), pow-suc 2 a, pow_split a b) (grind arith)

left_over : (r t c d q : ℕ) → r + t * (c * d) ≡ q * c → r ≡ c * (q - d * t)
left_over r t c d q h = rw (mul-sub c q (d * t)) (grind arith)

shift-IsShifted :
    (k gear : ℕ) → suc k ≤ 64 → IsShifted k gear → IsShifted (suc k) (gear * 2 % 2 ^ 64)
shift-IsShifted k gear h (q, e) =
    let t = gear * 2 / 2 ^ 64 in
    let d = 2 ^ (63 - k) in
    let whole : 2 ^ 64 ≡ 2 ^ suc k * d =
      ap (λ n. 2 ^ n) {x = 64} (omega arith) ∙ pow_split (suc k) (63 - k) in
    let doubled : gear * 2 ≡ q * 2 ^ suc k = rw (e, pow-suc 2 k) (grind arith) in
    let parts : gear * 2 % 2 ^ 64 + t * (2 ^ suc k * d) ≡ q * 2 ^ suc k =
      ap (λ m. gear * 2 % 2 ^ 64 + t * m) (sym whole)
      ∙ mod-add-div' (gear * 2) (2 ^ 64)
      ∙ doubled in
    (q - d * t, left_over (gear * 2 % 2 ^ 64) t (2 ^ suc k) d q parts ∙ mul_comm _ _)

roll-IsShifted :
    (k gear : ℕ) (bs : Bytes)
    → k + length bs ≤ 64
    → All (λ b. 232 ≤ b) bs
    → IsShifted k gear
    → IsShifted (k + length bs) (roll gear bs)
unfolding roll
roll-IsShifted k gear [] h high s = rw (add-zero k) s
roll-IsShifted k gear (b ∷ bs) h (p, high) s =
    let next : IsShifted (suc k) (gear_step gear b) =
      rw (step_high gear b p) (shift-IsShifted k gear (omega arith) s) in
    let more = roll-IsShifted (suc k) (gear_step gear b) bs (omega arith) high next in
    rw (add-suc k (length bs)) (rw (suc-add k (length bs)) at more)

-- The source lists 232 of the 256 values, so the hash does not read the bytes from 232 on: after as
-- many of them as the mask has bits, at most 64, the test for a cut holds, whatever came before.
pub high_bytes-cut :
    (bits gear : ℕ) (bs : Bytes)
    → bits ≤ 64
    → length bs ≡ bits
    → All (λ b. 232 ≤ b) bs
    → masked_zero bits (roll gear bs) ≡ true
unfolding masked_zero
high_bytes-cut bits gear bs h size high =
    let (q, e) = roll-IsShifted 0 gear bs (omega arith) high (gear, omega arith) in
    let shape : roll gear bs ≡ q * 2 ^ bits = e ∙ ap (λ n. q * 2 ^ n) (omega arith) in
    rw (shape, mul-mod_left q (2 ^ bits)) refl
