-- ===== src/Server/Sound/Served.antt =====
-- Every request keeps the Node's invariant.
use revika.Base.{
  ℕ, zero, suc, ◌/◌, ◌≡◌, refl, ◌∙◌, inl, inr, Bool, Option, none, some, eqb, bytes_eq, Bytes,
  length, Map, Bool-cases,
}
use revika.Cap.{Signatures}
use revika.Store.{ShardId, DiskStore, is_held, disk_put, disk_delete}
use revika.Ledger.{
  Owner, Db, StripeRow, Result, is_known, add_owner, remove_owner, renew_lease, drop_record,
}
use revika.Ledger
use revika.Ledger.Upkeep.{is_revoked, put_stripe, revoke_grant}
use revika.Ledger.History.{
  IsSound, call, call-IsSound, put_shard, renew_claim, delete_claim, drop_shard_record, after_or,
  state_or,
}
use revika.Stripe.{Descriptor}
use revika.Net.AuthCache.{second}
use revika.Net.Wire.{op_renew, op_revoke_grant}
use revika.Net.Wire.Frame.{
  Request, put_request, get_request, has_request, delete_request, renew_request,
  revoke_grant_request,
}
use revika.Server.{
  Config, Server, Checked, admitted, denied, grant_refused, put_reply, delete_reply, renew_reply,
  keep_stripe,
}
use revika.Server.Handle.{
  has_slot, put_checked, put_with, delete_checked, delete_with, renew_with, revoke_with, handle_put,
  handle_delete, handle_renew, handle_revoke_grant, serve, stripe_of,
}
use revika.Server.Authority.Passed.{
  Passes, check_token-Passes, PutAuthority-Passes, DeleteAuthority-Passes,
}
use revika.Server.Sound.{
  Backed, Backed-Extends, disk_put-Extends, disk_put-held, add_owner-Backed, remove_owner-Backed,
  renew_lease-Backed, drop_record-Backed, drop_record-Backed_store, record_stripe-keeps,
}

module _ (hash_of : Bytes → ShardId) (sigs : Signatures) (meets_pow : Bytes → ℕ → Bool)
    (conf : Config) (sizes : ShardId → ℕ) where
  abbrev pub Kept : DiskStore → Db → Type 0
  Kept store db = IsSound sizes conf.options db × Backed store db

  -- The invariant; a Node with no ledger promises nothing.
  abbrev pub Holds : DiskStore → Option Db → Type 0
  Holds store none = Unit
  Holds store (some db) = Kept store db

  abbrev pub IsSoundServer : Server → Type 0
  IsSoundServer srv = Holds srv.store srv.ledger

  -- The invariant does not read the stripes and the revoked grants.
  other_tables :
      (store : DiskStore) (db : Db)
      → Kept store db
      → (stripes : Map ShardId StripeRow) (revoked : Map Bytes (Owner × ℕ))
      → Kept store (record db { stripes = stripes; revoked = revoked })
  other_tables store db ((c, sized), backed) stripes revoked =
      ((record { known = c.known; unique = c.unique; matched = c.matched }, sized), backed)

  stripe-Kept :
      (store : DiskStore) (db : Db) (id : ShardId) (grant : Bytes) (d : Descriptor)
      → Kept store db
      → Kept store (keep_stripe db (put_stripe db id d.k d.m d.shards grant))
  unfolding put_stripe
  stripe-Kept store db id grant d k = elim (Bool-cases (eqb (length grant) 0)) [
    | inl empty ↦ rw empty k
    | inr full ↦ elim (Bool-cases (is_known (db.shards id))) [
      | inl known ↦ rw (full, known) (other_tables store db k _ db.revoked)
      | inr unknown ↦ rw (full, unknown) k
    ]
  ]

  Holds-same :
      (srv srv' : Server) (l : Option Db)
      → srv.ledger ≡ l
      → (srv'.ledger ≡ srv.ledger) × (srv'.store ≡ srv.store)
      → Holds srv.store l
      → Holds srv'.store srv'.ledger
  Holds-same srv srv' l h u k = rw (u.1, u.0 ∙ h) k

  put_reply-Holds :
      (db : Db) (r : Result (Bool × Db)) (s : Option (Descriptor × Owner)) (id : ShardId)
      (grant : Bytes) (srv : Server)
      → srv.ledger ≡ some db
      → Kept srv.store db
      → Kept srv.store (after_or db r)
      → IsSoundServer (put_reply r s id grant srv).1
  put_reply-Holds db (Ledger.err e) s id grant srv h k k' = rw h k
  put_reply-Holds db (Ledger.ok r) s id grant srv h k k' =
      record_stripe-keeps (Kept srv.store) r.0 s r.1 id grant k'
        (λ d. stripe-Kept srv.store r.1 id grant d k')

  drop_record-IsSound :
      (db : Db) (id : ShardId)
      → IsSound sizes conf.options db
      → IsSound sizes conf.options (drop_record db id).1
  unfolding call
  drop_record-IsSound db id k = call-IsSound sizes conf.options db (drop_shard_record id) k

  delete_reply-Holds :
      (db : Db) (r : Result (ℕ × Db)) (id : ShardId) (srv : Server)
      → srv.ledger ≡ some db
      → Kept srv.store db
      → Kept srv.store (after_or db r)
      → IsSoundServer (delete_reply r id srv).1
  unfolding disk_delete
  delete_reply-Holds db (Ledger.err e) id srv h k k' = rw h k
  delete_reply-Holds db (Ledger.ok (zero, db')) id srv h k k' =
      elim (Bool-cases (is_held (srv.store id))) [
        | inl there ↦
            rw there (
              drop_record-IsSound db' id k'.0,
              drop_record-Backed conf.options srv.store db' id k'.1,
            )
        | inr absent ↦ rw absent (
          drop_record-IsSound db' id k'.0,
          drop_record-Backed_store conf.options srv.store db' id k'.1,
        )
      ]
  delete_reply-Holds db (Ledger.ok (suc n, db')) id srv h k k' = k'

  renew_reply-Holds :
      (db : Db) (r : Result Db) (srv : Server)
      → srv.ledger ≡ some db
      → Kept srv.store db
      → Kept srv.store (state_or db r)
      → IsSoundServer (renew_reply r srv).1
  renew_reply-Holds db (Ledger.err e) srv h k k' = rw h k
  renew_reply-Holds db (Ledger.ok db') srv h k k' = k'

  -- The invariant for the store that the checks hand on.
  handed :
      (srv srv' : Server) (db : Db)
      → srv'.store ≡ srv.store
      → Kept srv.store db
      → Kept srv'.store db
  handed srv srv' db e k = rw e k

  module _ (names : (bytes : Bytes) → sizes (hash_of bytes) ≡ length bytes) where
    put_checked-Holds :
        (P : Owner → Type 0) (srv : Server) (db : Db) (c : Checked) (peer shard token grant : Bytes)
        (s : Option (Descriptor × Owner)) (reason now : ℕ)
        → srv.ledger ≡ some db
        → Kept srv.store db
        → Passes P srv c
        → IsSoundServer
            (put_checked hash_of sigs meets_pow conf c db peer shard token s grant reason now).1
    unfolding call
    put_checked-Holds P srv db (denied e srv') peer shard token grant s reason now h k p =
        Holds-same srv srv' (some db) h p k
    put_checked-Holds P srv db (admitted owner srv') peer shard token grant s reason now h k p =
        let id = hash_of shard in
        let secs = now / second in
        let store' = (disk_put hash_of srv'.store shard).1 in
        let k_in = handed srv srv' db p.1.1 k in
        let k_put : Kept store' db = (
          k_in.0,
          Backed-Extends srv'.store store' db (disk_put-Extends hash_of srv'.store shard) k_in.1,
        ) in
        let sound : IsSound sizes conf.options
            (after_or db (add_owner conf.options db id owner (length shard) secs)) =
          rw (names shard) at
            (call-IsSound sizes conf.options db (put_shard id owner secs) k_in.0) in
        put_reply-Holds db (add_owner conf.options db id owner (length shard) secs) s id grant _
          (p.1.0 ∙ h) k_put
          (
            sound,
            add_owner-Backed conf.options store' db id owner (length shard) secs
                (disk_put-held hash_of srv'.store shard) k_put.1,
          )

  delete_checked-Holds :
      (P : Owner → Type 0) (srv : Server) (db : Db) (c : Checked) (id : ShardId)
      → srv.ledger ≡ some db
      → Kept srv.store db
      → Passes P srv c
      → IsSoundServer (delete_checked hash_of sigs meets_pow conf c db id).1
  unfolding call
  delete_checked-Holds P srv db (denied e srv') id h k p = Holds-same srv srv' (some db) h p k
  delete_checked-Holds P srv db (admitted owner srv') id h k p =
      let k_in = handed srv srv' db p.1.1 k in
      delete_reply-Holds db (remove_owner db id owner) id srv' (p.1.0 ∙ h) k_in (
        call-IsSound sizes conf.options db (delete_claim id owner) k_in.0,
        remove_owner-Backed conf.options srv'.store db id owner k_in.1,
      )

  renew_with-Holds :
      (P : Owner → Type 0) (srv : Server) (c : Checked) (l : Option Db) (id : ShardId) (now : ℕ)
      → srv.ledger ≡ l
      → Holds srv.store l
      → Passes P srv c
      → IsSoundServer (renew_with hash_of sigs meets_pow conf c l id now).1
  unfolding call
  renew_with-Holds P srv (denied e srv') l id now h k p = Holds-same srv srv' l h p k
  renew_with-Holds P srv (admitted owner srv') none id now h k p = Holds-same srv srv' none h p.1 k
  renew_with-Holds P srv (admitted owner srv') (some db) id now h k p =
      let k_in = handed srv srv' db p.1.1 k in
      renew_reply-Holds db (renew_lease conf.options db id owner (now / second)) srv' (p.1.0 ∙ h)
        k_in
        (
          call-IsSound sizes conf.options db (renew_claim id owner (now / second)) k_in.0,
          renew_lease-Backed conf.options srv'.store db id owner (now / second) k_in.1,
        )

  revoke_with-Holds :
      (P : Owner → Type 0) (srv : Server) (c : Checked) (l : Option Db) (nonce : Bytes) (now : ℕ)
      → srv.ledger ≡ l
      → Holds srv.store l
      → Passes P srv c
      → IsSoundServer (revoke_with hash_of sigs meets_pow conf c l nonce now).1
  unfolding revoke_grant
  revoke_with-Holds P srv (denied e srv') l nonce now h k p = Holds-same srv srv' l h p k
  revoke_with-Holds P srv (admitted owner srv') none nonce now h k p =
      Holds-same srv srv' none h p.1 k
  revoke_with-Holds P srv (admitted owner srv') (some db) nonce now h k p =
      let k_in = handed srv srv' db p.1.1 k in
      elim (Bool-cases (is_revoked (db.revoked nonce))) [
        | inl before ↦ rw before k_in
        | inr new ↦ rw new (other_tables srv'.store db k_in db.stripes _)
      ]

  module _ (names : (bytes : Bytes) → sizes (hash_of bytes) ≡ length bytes) where
    put_with-Holds :
        (srv : Server) (l : Option Db) (peer shard token stripe grant : Bytes) (reason now : ℕ)
        → srv.ledger ≡ l
        → Holds srv.store l
        → IsSoundServer
            (put_with hash_of sigs meets_pow conf l srv peer shard token
              (stripe_of hash_of sigs meets_pow conf (hash_of shard) stripe grant now)
              grant
              reason
              now).1
    put_with-Holds srv none peer shard token stripe grant reason now h k = rw h tt
    put_with-Holds srv (some db) peer shard token stripe grant reason now h k =
        let s = stripe_of hash_of sigs meets_pow conf (hash_of shard) stripe grant now in
        elim (Bool-cases (grant_refused db s grant)) [
          | inl revoked ↦ rw (revoked, h) k
          | inr live ↦ rw live (
              put_checked-Holds names _ srv db _ peer shard token grant s reason now h k (
                PutAuthority-Passes hash_of sigs meets_pow conf srv (hash_of shard) token stripe
                  grant now))
        ]

    delete_with-Holds :
        (srv : Server) (l : Option Db) (id : ShardId) (token : Bytes) (now : ℕ)
        → srv.ledger ≡ l
        → Holds srv.store l
        → IsSoundServer (delete_with hash_of sigs meets_pow conf l srv id token now).1
    delete_with-Holds srv none id token now h k = rw h tt
    delete_with-Holds srv (some db) id token now h k =
        delete_checked-Holds _ srv db _ id h k
          (DeleteAuthority-Passes hash_of sigs meets_pow conf srv id token now)

    -- Where a shard's name fixes its size, every request, refused ones included, keeps the Node sound:
    -- the accounts show what the owners claim, claims are on known shards and each is there once, and
    -- the store holds every shard that the ledger knows.
    pub serve-IsSoundServer :
        (srv : Server) (peer : Bytes) (now : ℕ) (r : Request)
        → IsSoundServer srv
        → IsSoundServer (serve hash_of sigs meets_pow conf srv peer now r).1
    unfolding serve handle_put handle_delete handle_renew handle_revoke_grant
    serve-IsSoundServer srv peer now (put_request shard token stripe grant reason) k =
        elim (Bool-cases (has_slot hash_of sigs meets_pow conf srv.free_slots)) [
          | inr full ↦ rw full k
          | inl room ↦
              rw room
                (put_with-Holds srv srv.ledger peer shard token stripe grant reason now refl k)
        ]
    serve-IsSoundServer srv peer now (get_request id) k = k
    serve-IsSoundServer srv peer now (has_request id) k = k
    serve-IsSoundServer srv peer now (delete_request id token) k =
        delete_with-Holds srv srv.ledger id token now refl k
    serve-IsSoundServer srv peer now (renew_request id token) k =
        renew_with-Holds _ srv _ srv.ledger id now refl k
          (check_token-Passes hash_of sigs meets_pow conf srv op_renew id token now)
    serve-IsSoundServer srv peer now (revoke_grant_request nonce token) k =
        revoke_with-Holds _ srv _ srv.ledger nonce now refl k
          (check_token-Passes hash_of sigs meets_pow conf srv op_revoke_grant _ token now)
