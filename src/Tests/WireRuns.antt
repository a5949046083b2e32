-- ===== src/Tests/WireRuns.antt =====
-- Runs of the wire formats, the tokens, the grants and the choice of a root.
use revika.Base.{
  ◌*◌, bytes_eq, ℕ, ◌≡◌, refl, Option, some, none, List, [], ◌∷◌, ◌++◌, true, arith, Bytes,
  be_bytes,
}
use revika.Net.AuthCache.{in_window, second}
use revika.Net.Wire.{op_put, op_delete}
use revika.Net.Wire.Frame.{Request, put_request, request, read_request, write_request}
use revika.Net.Wire.RoundTrip.{read_request-write_request}
use revika.Net.Token.{build_token, verify_token}
use revika.Net.Token.Laws.{verify_token-build_token, token_payload-injective}
use revika.Net.RootSelect.{Best, select}
use revika.Net.RootSelect.Agreed.{lists, value_of, select-agreed}
use revika.Stripe.{
  Descriptor, marshal, unmarshal, concat_ids, build_grant, verify_grant, grant_nonce, grant_payload,
  is_after,
}
use revika.Stripe.Layout.{unmarshal-marshal}
use revika.Stripe.Grants.{verify_grant-build_grant}
use revika.Tests.Signer.{zeros, toy, toy-SignatureLaws}

abbrev frame : Bytes
frame = 1 ∷ 0 ∷ 0 ∷ 0 ∷ 2 ∷ 8 ∷ 9 ∷ 0 ∷ 0 ∷ 0 ∷ 1 ∷ 5 ∷ 0 ∷ 0 ∷ 0 ∷ 0 ∷ 0 ∷ 0 ∷ 0 ∷ 1 ∷ 7 ∷ 2 ∷ []

abbrev move : Request
move = put_request (8 ∷ 9 ∷ []) (5 ∷ []) [] (7 ∷ []) 2

move-written : write_request move ≡ some frame
unfolding write_request be_bytes
move-written = refl

read_request-write_request_example : read_request frame ≡ request move
read_request-write_request_example =
    read_request-write_request move frame (omega arith, (omega arith, omega arith)) move-written

abbrev self : Bytes
self = 4 ∷ []

abbrev stamp : ℕ
stamp = 900

abbrev shard_id : Bytes
shard_id = 3 ∷ zeros 31

in_time : in_window (1000 * second) 900 ≡ true
unfolding in_window
in_time = refl

verify_token-build_token_example :
    verify_token toy
      (build_token toy 6 op_delete shard_id (4 ∷ []) 900)
      op_delete
      shard_id
      (4 ∷ [])
      (1000 * second)
    ≡ some (6 ∷ zeros 31)
verify_token-build_token_example =
    verify_token-build_token toy toy-SignatureLaws 6 op_delete shard_id (4 ∷ []) 900 (1000 * second)
      (omega arith) in_time

token_payload-injective_example :
    (op_put ≡ op_put) × ((shard_id ≡ shard_id) × ((self ≡ self) × (stamp ≡ stamp)))
token_payload-injective_example =
    token_payload-injective op_put op_put shard_id shard_id self self stamp stamp refl refl
      (omega arith) (omega arith) refl

abbrev pair : Descriptor
pair = record { k = 1; m = 1; shards = shard_id ∷ zeros 32 ∷ [] }

abbrev pair_bytes : Bytes
pair_bytes = 0 ∷ 1 ∷ 0 ∷ 1 ∷ 0 ∷ 2 ∷ (shard_id ++ zeros 32)

pair-written : marshal pair ≡ some pair_bytes
unfolding marshal be_bytes concat_ids
pair-written = refl

unmarshal-marshal_example : unmarshal pair_bytes ≡ some pair
unmarshal-marshal_example = unmarshal-marshal pair pair_bytes (refl, (refl, tt)) pair-written

abbrev a_nonce : Bytes
a_nonce = 1 ∷ zeros 7

abbrev a_grant : Bytes
a_grant = (6 ∷ zeros 31) ++ ((zeros 6 ++ (3 ∷ 232 ∷ [])) ++ (a_nonce ++ (6 ∷ 107 ∷ zeros 62)))

grant-built : build_grant toy 6 pair 1000 a_nonce ≡ some a_grant
unfolding build_grant marshal be_bytes concat_ids grant_payload
grant-built = refl

verify_grant-build_grant_example :
    (verify_grant toy a_grant pair 900 ≡ some (6 ∷ zeros 31)) × (grant_nonce a_grant ≡ some a_nonce)
verify_grant-build_grant_example =
    verify_grant-build_grant toy toy-SignatureLaws 6 pair 1000 a_nonce a_grant 900 (omega arith)
      refl (unfold is_after in refl) grant-built

-- A record is its number and a byte.
abbrev read_seq : Bytes → Option ℕ
read_seq [] = none
read_seq (s ∷ rest) = some s

abbrev found_first : List Bytes
found_first = (2 ∷ 5 ∷ []) ∷ (2 ∷ 4 ∷ []) ∷ (1 ∷ []) ∷ []

abbrev found_second : List Bytes
found_second = (1 ∷ []) ∷ (2 ∷ 4 ∷ []) ∷ (2 ∷ 5 ∷ []) ∷ (1 ∷ []) ∷ []

abbrev chosen : Best
chosen = record { index = 1; seq = 2; value = 2 ∷ 4 ∷ [] }

chosen-selected : select read_seq found_first ≡ some chosen
unfolding select
chosen-selected = refl

listed : lists (1 ∷ []) found_first ≡ true
unfolding lists bytes_eq
listed = refl

found-same : (v : Bytes) → lists v found_first ≡ lists v found_second
unfolding lists
found-same v = ground arith

select-agreed_example :
    value_of (select read_seq found_first) ≡ value_of (select read_seq found_second)
select-agreed_example = select-agreed read_seq found_first found_second found-same
