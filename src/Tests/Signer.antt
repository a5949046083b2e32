-- ===== src/Tests/Signer.antt =====
-- A signature scheme that can be run: a signature repeats the key and the length of what it signs.
use revika.Base.{
  ℕ, zero, suc, ◌≡◌, refl, Bool, true, false, ◌&&◌, [], ◌∷◌, arith, eqb, Bytes, length,
}
use revika.Cap.{Signatures, SignatureLaws}

abbrev pub zeros : ℕ → Bytes
zeros zero = []
zeros (suc n) = 0 ∷ zeros n

abbrev pub toy_verify : Bytes → Bytes → Bytes → Bool
toy_verify (p ∷ key) msg (k ∷ n ∷ sig) = eqb p k && eqb n (length msg)
toy_verify key msg sig = false

abbrev pub toy : Signatures
toy = record {
  SignKey = ℕ;
  public = λ k. k ∷ zeros 31;
  sign = λ k msg. k ∷ length msg ∷ zeros 62;
  verify = toy_verify;
}

toy_verifies : (k n : ℕ) → eqb k k && eqb n n ≡ true
toy_verifies k n = ground arith

pub toy-SignatureLaws : SignatureLaws toy
toy-SignatureLaws = record {
  public_size = λ k. refl;
  sign_size = λ k msg. refl;
  verifies = λ k msg. toy_verifies k (length msg);
}
