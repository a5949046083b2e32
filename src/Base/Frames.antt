-- ===== src/Base/Frames.antt =====
-- Chains of optional results, and `io.ReadFull` on the bytes that are left of a stream.
use Prim.Native.Nat.{ℕ, zero, suc}
use mathlib.Core.Path.{◌≡◌, refl, ap}
use mathlib.Core.Option.{Option, none, some}
use mathlib.Core.List.{[], ◌∷◌, ◌++◌}
use native.Mathlib.Omega.{arith}
use revika.Base.Equality.{Bytes}
use revika.Base.Lists.{length}

infixl 5 ◌>>=◌
abbrev pub ◌>>=◌ {ℓ κ} : {A : Type ℓ} {B : Type κ} → Option A → (A → Option B) → Option B
none >>= f = none
some a >>= f = f a

abbrev pub read_byte : Bytes → Option (ℕ × Bytes)
read_byte [] = none
read_byte (b ∷ bs) = some (b, bs)

-- `n` bytes of the stream and what follows them; none if it ends before.
unfoldable pub read_full : ℕ → Bytes → Option (Bytes × Bytes)
read_full zero bs = some ([], bs)
read_full (suc n) [] = none
read_full (suc n) (b ∷ bs) = do (head, rest) ← read_full n bs; some (b ∷ head, rest)

pub read_full-append :
    (n : ℕ) (head rest : Bytes) → length head ≡ n → read_full n (head ++ rest) ≡ some (head, rest)
unfolding read_full
read_full-append zero [] rest h = refl
read_full-append (suc n) [] rest h = absurd (omega arith)
read_full-append zero (b ∷ head) rest h = absurd (omega arith)
read_full-append (suc n) (b ∷ head) rest h =
    ap (λ r. r >>= (λ p. some (b ∷ p.0, p.1))) (read_full-append n head rest (omega arith))

-- A chain with a result has one at its first link.
pub bind-some {ℓ κ} :
    {A : Type ℓ} {B : Type κ} (o : Option A) (f : A → Option B) (b : B)
    → (o >>= f) ≡ some b
    → (a : A) × ((o ≡ some a) × (f a ≡ some b))
bind-some none f b h = absurd (cc h)
bind-some (some a) f b h = (a, (refl, h))
