-- ===== src/Stripe.antt =====
-- internal/stripe/stripe.go: the descriptor of an erasure stripe, and the repair grants for it.
-- K and M are natural numbers: the code refuses the negative ones together with 0. The random nonce
-- of a grant is an argument.
pub mod Layout
pub mod Grants
use revika.Base.{
  ℕ, zero, suc, ◌+◌, ◌*◌, ◌^◌, ◌-◌, Bool, true, false, ◌&&◌, ◌||◌, not, Option, none, some, List,
  [], ◌∷◌, ◌++◌, ltb, eqb, if◌then◌else◌, bytes_eq, ◌==◌, Bytes, length, take, drop, be_bytes,
  of_be, ◌>>=◌,
}
use revika.Cap.{Signatures}

abbrev pub ShardId : Type 0
ShardId = Bytes

pub record Descriptor : Type 0 where
  pub k : ℕ
  pub m : ℕ
  pub shards : List ShardId

-- `slices.Contains`
unfoldable pub lists : ShardId → List ShardId → Bool
lists id [] = false
lists id (s ∷ shards) = (s == id) || lists id shards

-- `Descriptor.Contains`
unfoldable pub contains : Descriptor → ShardId → Bool
contains d id = lists id d.shards

unfoldable pub concat_ids : List ShardId → Bytes
concat_ids [] = []
concat_ids (s ∷ shards) = s ++ concat_ids shards

-- `MarshalBinary`. The word for N holds its low 16 bits.
unfoldable pub marshal : Descriptor → Option Bytes
marshal d =
    if eqb d.k 0 || eqb d.m 0
    then none
    else if ltb 0xffff d.k || ltb 0xffff d.m
    then none
    else if not (eqb (length d.shards) (d.k + d.m))
    then none
    else some
        (be_bytes 2 d.k ++ (be_bytes 2 d.m ++ (be_bytes 2 (d.k + d.m) ++ concat_ids d.shards)))

-- The loop of `UnmarshalDescriptor`.
unfoldable pub cut_ids : ℕ → Bytes → List ShardId
cut_ids zero b = []
cut_ids (suc n) b = take 32 b ∷ cut_ids n (drop 32 b)

-- `UnmarshalDescriptor`
unfoldable pub unmarshal : Bytes → Option Descriptor
unmarshal b =
    let k = of_be (take 2 b) in
    let m = of_be (take 2 (drop 2 b)) in
    let n = of_be (take 2 (drop 4 b)) in
    if ltb (length b) 6
    then none
    else if eqb k 0 || eqb m 0
    then none
    else if not (eqb n (k + m))
    then none
    else if not (eqb (length b) (6 + n * 32))
    then none
    else some (record { k = k; m = m; shards = cut_ids n (drop 6 b) })

-- "revika/repair-grant/1"
abbrev pub grant_domain : Bytes
grant_domain =
    0x72 ∷ 0x65 ∷ 0x76 ∷ 0x69 ∷ 0x6b ∷ 0x61 ∷ 0x2f ∷ 0x72 ∷ 0x65 ∷ 0x70 ∷ 0x61 ∷ 0x69 ∷ 0x72 ∷ 0x2d
    ∷ 0x67 ∷ 0x72 ∷ 0x61 ∷ 0x6e ∷ 0x74 ∷ 0x2f ∷ 0x31 ∷ []

unfoldable pub grant_payload : ℕ → Bytes → Bytes → Bytes
grant_payload expiry nonce desc = grant_domain ++ (be_bytes 8 expiry ++ (nonce ++ desc))

abbrev pub grant_size : ℕ
grant_size = 32 + 8 + 8 + 64

-- `now.Unix() > expiry` on a 64-bit word: from 2 ^ 63 on it is a negative number of seconds.
unfoldable pub is_after : ℕ → ℕ → Bool
is_after now expiry = if ltb expiry (2 ^ 63) then ltb expiry now else true

abbrev pub grant_owner : Bytes → Bytes
grant_owner grant = take 32 grant

abbrev pub grant_expiry : Bytes → ℕ
grant_expiry grant = of_be (take 8 (drop 32 grant))

abbrev pub nonce_of : Bytes → Bytes
nonce_of grant = take 8 (drop 40 grant)

abbrev pub grant_signature : Bytes → Bytes
grant_signature grant = drop 48 grant

module _ (s : Signatures) where
  unfoldable pub build_grant : s.SignKey → Descriptor → ℕ → Bytes → Option Bytes
  build_grant signer d expiry nonce = do
    desc ← marshal d
    some (
        s.public signer
        ++ (be_bytes 8 expiry ++ (nonce ++ s.sign signer (grant_payload expiry nonce desc))))

  -- The end of `VerifyGrant`, once the descriptor is in bytes.
  unfoldable pub verify_signed : Bytes → Bytes → Option Bytes
  verify_signed grant desc =
      if s.verify (grant_owner grant) (grant_payload (grant_expiry grant) (nonce_of grant) desc)
        (grant_signature grant)
      then some (grant_owner grant)
      else none

  -- The owner, if the grant holds for the descriptor.
  unfoldable pub verify_grant : Bytes → Descriptor → ℕ → Option Bytes
  verify_grant grant d now =
      if not (eqb (length grant) grant_size)
      then none
      else if not (eqb (grant_expiry grant) 0) && is_after now (grant_expiry grant)
      then none
      else (do desc ← marshal d; verify_signed grant desc)

-- `GrantNonce`
unfoldable pub grant_nonce : Bytes → Option Bytes
grant_nonce grant = if eqb (length grant) grant_size then some (nonce_of grant) else none
