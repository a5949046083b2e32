-- ===== src/Net/Token.antt =====
-- internal/net/auth.go: the tokens that authorise a request. The signature scheme (Ed25519) is a
-- parameter. A stamp is the 64-bit word of its Unix seconds; `node` is the peer's identifier.
pub mod Laws
use revika.Base.{
  ℕ, ◌+◌, ◌<◌, ◌^◌, Bool, ◌&&◌, not, Option, none, some, [], ◌∷◌, ◌++◌, eqb, if◌then◌else◌, ◌≡◌,
  true, Bytes, length, take, drop, be_bytes, of_be,
}
use revika.Cap.{Signatures}
use revika.Net.AuthCache.{in_window}
use revika.Net.Wire.{Op, op_byte, auth_token_size}

unfoldable pub token_payload : Op → Bytes → Bytes → ℕ → Bytes
token_payload o id node ts = op_byte o ∷ (id ++ (node ++ be_bytes 8 ts))

-- The parts of a token.
abbrev pub token_owner : Bytes → Bytes
token_owner token = take 32 token

abbrev pub token_stamp : Bytes → ℕ
token_stamp token = of_be (take 8 (drop 32 token))

abbrev pub token_signature : Bytes → Bytes
token_signature token = drop 40 token

module _ (s : Signatures) where
  unfoldable pub build_token : s.SignKey → Op → Bytes → Bytes → ℕ → Bytes
  build_token signer o id node ts =
      s.public signer ++ (be_bytes 8 ts ++ s.sign signer (token_payload o id node ts))

  -- The owner, if the token holds.
  unfoldable pub verify_token : Bytes → Op → Bytes → Bytes → ℕ → Option Bytes
  verify_token token o id node now =
      if not (eqb (length token) auth_token_size)
      then none
      else if not (in_window now (token_stamp token))
      then none
      else if not (
          s.verify (token_owner token) (token_payload o id node (token_stamp token))
            (token_signature token))
      then none
      else some (token_owner token)
