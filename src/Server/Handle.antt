-- ===== src/Server/Handle.antt =====
-- The handlers of internal/net/server.go, from the request that was read to the reply.
use revika.Base.{
  ℕ, zero, suc, ◌/◌, Bool, true, false, not, Option, none, some, [], ◌∷◌, ◌++◌, eqb, if◌then◌else◌,
  Bytes, bytes_eq, length,
}
use revika.Cap.{Signatures}
use revika.Store.{ShardId, disk_put, disk_get, disk_has, disk_delete}
use revika.Ledger.{Owner, Db, add_owner, renew_lease, remove_owner}
use revika.Ledger.Upkeep.{revoke_grant}
use revika.Stripe.{Descriptor, contains, unmarshal, verify_grant}
use revika.Net.AuthCache.{second}
use revika.Net.SubnetLimit.{SubnetLimiter, allow}
use revika.Net.Token.{verify_token}
use revika.Net.Wire.{
  Op, op_put, op_delete, op_renew, op_revoke_grant, unauthorized, rate_limited, other,
}
use revika.Net.Wire.Frame.{
  Request, put_request, get_request, has_request, delete_request, renew_request,
  revoke_grant_request, Read, reset, unknown_op, request, read_request,
}
use revika.Server.{
  Config, Server, Reply, done, refused, stored, blob, proof, presence, Checked, admitted, denied,
  check_owner, meter, grant_refused, is_move, record_move, put_reply, delete_reply, deleted_blob,
  renew_reply, blob_reply,
}

-- `store.ShardID{}`
abbrev zero_id : ℕ → ShardId
zero_id zero = []
zero_id (suc n) = 0 ∷ zero_id n

module _ (hash_of : Bytes → ShardId) (sigs : Signatures) (meets_pow : Bytes → ℕ → Bool)
    (conf : Config) where
  -- `verifyToken` and the replay check.
  unfoldable pub check_token : Server → Op → ShardId → Bytes → ℕ → Checked
  check_token srv o id token now =
      check_owner (verify_token sigs token o id conf.node now) token now srv

  -- `enforcePoW`
  unfoldable pub enforce_pow : Checked → Checked
  enforce_pow (denied e srv) = denied e srv
  enforce_pow (admitted owner srv) =
      if eqb conf.pow_min 0
      then admitted owner srv
      else if meets_pow owner conf.pow_min
      then admitted owner srv
      else denied unauthorized srv

  -- The descriptor that comes with a shard, with the owner that its grant names.
  abbrev pub named : ShardId → Descriptor → Option Owner → Option (Descriptor × Owner)
  named id d none = none
  named id d (some owner) = if contains d id then some (d, owner) else none

  abbrev pub granted : ShardId → Bytes → ℕ → Option Descriptor → Option (Descriptor × Owner)
  granted id grant now none = none
  granted id grant now (some d) = named id d (verify_grant sigs grant d (now / second))

  unfoldable pub stripe_of : ShardId → Bytes → Bytes → ℕ → Option (Descriptor × Owner)
  stripe_of id [] grant now = none
  stripe_of id (b ∷ stripe) [] now = none
  stripe_of id (b ∷ stripe) (g ∷ grant) now = granted id (g ∷ grant) now (unmarshal (b ∷ stripe))

  -- The switch of `handlePut`: a token, or else a grant that names the shard.
  unfoldable pub put_authority :
      Server → ShardId → Bytes → Option (Descriptor × Owner) → ℕ → Checked
  unfolding check_token enforce_pow
  put_authority srv id [] none now = denied unauthorized srv
  put_authority srv id [] (some d) now = admitted d.1 srv
  put_authority srv id (b ∷ token) s now =
      meter (enforce_pow (check_token srv op_put id (b ∷ token) now)) now

  -- `handlePut` from the switch on, on a Node with a ledger.
  abbrev pub put_checked :
      Checked
      → Db
      → Bytes
      → Bytes
      → Bytes
      → Option (Descriptor × Owner)
      → Bytes
      → ℕ
      → ℕ
      → Reply × Server
  put_checked (denied e srv) db peer shard token s grant reason now = (refused e, srv)
  put_checked (admitted owner srv) db peer shard token s grant reason now =
      let id = hash_of shard in
      let srv' = record srv {
        abuse = if is_move token s reason then record_move srv.abuse peer now else srv.abuse;
        store = (disk_put hash_of srv.store shard).1;
      } in
      put_reply (add_owner conf.options db id owner (length shard) (now / second)) s id grant srv'

  abbrev pub put_with :
      Option Db
      → Server
      → Bytes
      → Bytes
      → Bytes
      → Option (Descriptor × Owner)
      → Bytes
      → ℕ
      → ℕ
      → Reply × Server
  put_with none srv peer shard token s grant reason now =
      (stored (hash_of shard), record srv { store = (disk_put hash_of srv.store shard).1 })
  put_with (some db) srv peer shard token s grant reason now =
      if grant_refused db s grant
      then (refused unauthorized, srv)
      else put_checked (put_authority srv (hash_of shard) token s now) db peer shard token s grant
          reason now

  abbrev pub has_slot : Option ℕ → Bool
  has_slot none = true
  has_slot (some n) = not (eqb n 0)

  -- The code takes the slot before it reads the frame, and so answers `rate_limited` to a frame that it
  -- could not read, too; here a request is one that was read.
  unfoldable pub handle_put :
      Server → Bytes → Bytes → Bytes → Bytes → Bytes → ℕ → ℕ → Reply × Server
  unfolding put_authority stripe_of
  handle_put srv peer shard token stripe grant reason now =
      if has_slot srv.free_slots
      then put_with srv.ledger srv peer shard token (stripe_of (hash_of shard) stripe grant now)
          grant reason now
      else (refused rate_limited, srv)

  unfoldable pub handle_get : Server → ShardId → Reply
  handle_get srv id = blob_reply (λ b. b) blob (disk_get hash_of srv.store id)

  unfoldable pub handle_has : Server → ShardId → Reply
  handle_has srv id = presence (disk_has srv.store id)

  -- The proof of possession that answers a probe: the hash of the nonce and the shard.
  unfoldable pub handle_probe : Server → ShardId → Bytes → Reply
  handle_probe srv id nonce =
      blob_reply (λ b. hash_of (nonce ++ b)) proof (disk_get hash_of srv.store id)

  abbrev pub delete_checked : Checked → Db → ShardId → Reply × Server
  delete_checked (denied e srv) db id = (refused e, srv)
  delete_checked (admitted owner srv) db id = delete_reply (remove_owner db id owner) id srv

  -- With no ledger a delete needs no authority.
  abbrev pub delete_with : Option Db → Server → ShardId → Bytes → ℕ → Reply × Server
  delete_with none srv id token now =
      let r = deleted_blob false (disk_delete srv.store id) in (r.0, record srv { store = r.1 })
  delete_with (some db) srv id token now =
      delete_checked (meter (check_token srv op_delete id token now) now) db id

  unfoldable pub handle_delete : Server → ShardId → Bytes → ℕ → Reply × Server
  unfolding check_token
  handle_delete srv id token now = delete_with srv.ledger srv id token now

  abbrev pub renew_with : Checked → Option Db → ShardId → ℕ → Reply × Server
  renew_with (denied e srv) db id now = (refused e, srv)
  renew_with (admitted owner srv) none id now = (done, srv)
  renew_with (admitted owner srv) (some db) id now =
      renew_reply (renew_lease conf.options db id owner (now / second)) srv

  unfoldable pub handle_renew : Server → ShardId → Bytes → ℕ → Reply × Server
  unfolding check_token
  handle_renew srv id token now =
      renew_with (check_token srv op_renew id token now) srv.ledger id now

  abbrev pub revoke_with : Checked → Option Db → Bytes → ℕ → Reply × Server
  revoke_with (denied e srv) db nonce now = (refused e, srv)
  revoke_with (admitted owner srv) none nonce now = (done, srv)
  revoke_with (admitted owner srv) (some db) nonce now =
      (done, record srv { ledger = some (revoke_grant db nonce owner (now / second)) })

  unfoldable pub handle_revoke_grant : Server → Bytes → Bytes → ℕ → Reply × Server
  unfolding check_token
  handle_revoke_grant srv nonce token now =
      revoke_with (check_token srv op_revoke_grant (zero_id 32) token now) srv.ledger nonce now

  -- The switch of `handleShard`.
  unfoldable pub serve : Server → Bytes → ℕ → Request → Reply × Server
  unfolding handle_put handle_get handle_has handle_delete handle_renew handle_revoke_grant
  serve srv peer now (put_request shard token stripe grant reason) =
      handle_put srv peer shard token stripe grant reason now
  serve srv peer now (get_request id) = (handle_get srv id, srv)
  serve srv peer now (has_request id) = (handle_has srv id, srv)
  serve srv peer now (delete_request id token) = handle_delete srv id token now
  serve srv peer now (renew_request id token) = handle_renew srv id token now
  serve srv peer now (revoke_grant_request nonce token) = handle_revoke_grant srv nonce token now

  -- A stream that is reset is answered with nothing.
  abbrev pub serve_read : Server → Bytes → ℕ → Read → Option Reply × Server
  serve_read srv peer now reset = (none, srv)
  serve_read srv peer now unknown_op = (some (refused other), srv)
  serve_read srv peer now (request r) = let a = serve srv peer now r in (some a.0, a.1)

  -- `handleShard`: the limiter of subnets, the verb, and its handler.
  module _ {Addr : Type 0} (to_ip : Addr → Option Bytes) where
    unfoldable pub handle_shard :
        Option SubnetLimiter
        → Server
        → Addr
        → Bytes
        → ℕ
        → Bytes
        → Option Reply × (Option SubnetLimiter × Server)
    unfolding serve
    handle_shard subnets srv addr peer now bytes =
        let gate = allow to_ip subnets addr now in
        if gate.0
        then (let a = serve_read srv peer now (read_request bytes) in (a.0, (gate.1, a.1)))
        else (none, (gate.1, srv))
