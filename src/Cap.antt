-- ===== src/Cap.antt =====
-- internal/cap: what the code takes from its signature scheme (Ed25519), as parameters.
use revika.Base.{Bool, true, ◌≡◌, Bytes, length}

-- `cap.SignKey` and `cap.SignPubKey`
pub record Signatures : Type 1 where
  pub SignKey : Type 0
  pub public : SignKey → Bytes
  pub sign : SignKey → Bytes → Bytes
  pub verify : Bytes → Bytes → Bytes → Bool

-- What a signature scheme with keys of 32 and signatures of 64 bytes promises to honest signers.
pub record SignatureLaws (s : Signatures) : Type 0 where
  pub public_size : (k : s.SignKey) → length (s.public k) ≡ 32
  pub sign_size : (k : s.SignKey) (msg : Bytes) → length (s.sign k msg) ≡ 64
  pub verifies : (k : s.SignKey) (msg : Bytes) → s.verify (s.public k) msg (s.sign k msg) ≡ true
