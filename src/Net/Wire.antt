-- ===== src/Net/Wire.antt =====
-- internal/net/proto.go: the verbs, the statuses, and the framing of requests and replies. A stream
-- is the list of the bytes that are left to read.
pub mod Frame
pub mod RoundTrip
use revika.Base.{
  ℕ, ◌*◌, ◌+◌, Bool, Option, none, some, List, [], ◌∷◌, ◌++◌, ltb, eqb, if◌then◌else◌, Bytes,
  length, be_bytes, of_be, read_byte, read_full, ◌>>=◌, String,
}

pub data Op : Type 0 where
  op_put op_get op_has op_delete op_renew op_revoke_grant : Op

unfoldable pub op_byte : Op → ℕ
op_byte op_put = 1
op_byte op_get = 2
op_byte op_has = 3
op_byte op_delete = 4
op_byte op_renew = 5
op_byte op_revoke_grant = 6

-- `MoveReason`
abbrev pub reason_rebalance : ℕ
reason_rebalance = 2

abbrev pub max_shard_size : ℕ
max_shard_size = 67108864

abbrev pub max_stripe_blob : ℕ
max_stripe_blob = 65536

-- `cap.SignPubKeySize + 8 + cap.SignatureSize`
abbrev pub auth_token_size : ℕ
auth_token_size = 32 + 8 + 64

unfoldable pub write_blob : Bytes → Option Bytes
write_blob b = if ltb max_shard_size (length b) then none else some (be_bytes 4 (length b) ++ b)

unfoldable pub read_blob : ℕ → Bytes → Option (Bytes × Bytes)
read_blob limit bs = do
  (header, rest) ← read_full 4 bs
  if ltb limit (of_be header) then none else read_full (of_be header) rest

unfoldable pub read_id : Bytes → Option (Bytes × Bytes)
read_id bs = read_full 32 bs

-- The errors that a server reports; those of the disk and the database are `other`.
pub data NetError : Type 0 where
  not_found corrupt unauthorized quota_exceeded rate_limited other : NetError

-- `errToStatus`, with no error as `none`.
unfoldable pub err_to_status : Option NetError → ℕ
err_to_status none = 0
err_to_status (some not_found) = 1
err_to_status (some corrupt) = 2
err_to_status (some other) = 3
err_to_status (some unauthorized) = 4
err_to_status (some quota_exceeded) = 5
err_to_status (some rate_limited) = 6

-- What `statusToErr` answers: the text of a remote error comes with it.
pub data ClientError : Type 0 where
  no_error unknown_status : ClientError
  remote : Bytes → ClientError
  known : NetError → ClientError

unfoldable pub status_to_err : ℕ → Bytes → ClientError
status_to_err s msg =
    if eqb s 0
    then no_error
    else if eqb s 1
    then known not_found
    else if eqb s 2
    then known corrupt
    else if eqb s 4
    then known unauthorized
    else if eqb s 5
    then known quota_exceeded
    else if eqb s 6
    then known rate_limited
    else if eqb s 3
    then remote msg
    else unknown_status
