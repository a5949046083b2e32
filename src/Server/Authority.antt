-- ===== src/Server/Authority.antt =====
-- Nobody's claims change but by a request that carries its owner's word.
pub mod Passed
pub mod Replies
use revika.Base.{
  eqb, ◌+◌, subst, Option-cases, ℕ, zero, suc, ◌/◌, ◌≡◌, refl, ap, sym, ◌∙◌, ◌⊎◌, inl, inr, Bool,
  true, false, ◌&&◌, ◌||◌, Option, none, some, List, [], ◌∷◌, arith, if◌then◌else◌, bytes_eq, ◌==◌,
  Bytes, length, Bool-cases,
}
use revika.Cap.{Signatures}
use revika.Store.{ShardId, DiskStore, disk_put, disk_delete}
use revika.Store
use revika.Ledger.{
  Owner, Db, Result, has_claim, add_owner, remove_owner, renew_lease, drop_record, count_owners,
  drop_claim,
}
use revika.Ledger
use revika.Ledger.Upkeep.{put_stripe, revoke_grant}
use revika.Ledger.Others.{rows_of, rows_of-add_owner, rows_of-remove_owner, rows_of-renew_lease}
use revika.Ledger.History.{after_or, state_or}
use revika.Stripe.{Descriptor}
use revika.Net.AuthCache.{second}
use revika.Net.Wire.{op_delete, op_renew, op_revoke_grant}
use revika.Net.Wire.Frame.{
  Request, put_request, get_request, has_request, delete_request, renew_request,
  revoke_grant_request,
}
use revika.Server.{
  done, refused, stored, blob, proof, presence, grant_refused, Config, Server, Reply, Checked,
  admitted, denied, keep_stripe, record_stripe, put_reply, delete_reply, drop_last, deleted_blob,
  renew_reply,
}
use revika.Server.Handle.{
  renew_with, put_with, delete_with, revoke_with, has_slot, handle_put, handle_delete, handle_renew,
  handle_revoke_grant, put_checked, delete_checked, serve, stripe_of, check_token,
}
use revika.Server.Authority.Passed.{
  Passes, PutAuthority, DeleteAuthority, RenewAuthority, check_token-Passes, PutAuthority-Passes,
  DeleteAuthority-Passes,
}
use revika.Server.Authority.Replies.{
  held, record_stripe-owners, delete_reply-held, remove_owner-Counted,
}

module _ (hash_of : Bytes → ShardId) (sigs : Signatures) (meets_pow : Bytes → ℕ → Bool)
    (conf : Config) where
  -- A claim after a request: as it was, or the request bears `Word`.
  abbrev Changed : Type 0 → ShardId → Owner → Option Db → Option Db → Type 0
  Changed Word j o before after = (held j o after ≡ held j o before) ⊎ Word

  put_reply-held :
      (j : ShardId) (o : Owner) (db : Db) (srv : Server) (r : Result (Bool × Db))
      (s : Option (Descriptor × Owner)) (id : ShardId) (grant : Bytes)
      → srv.ledger ≡ some db
      → held j o (put_reply r s id grant srv).1.ledger ≡ rows_of j o (after_or db r).owners
  put_reply-held j o db srv (Ledger.err e) s id grant h = ap (held j o) h
  put_reply-held j o db srv (Ledger.ok r) s id grant h =
      ap (rows_of j o) (record_stripe-owners r.0 s r.1 id grant)

  put_checked-Changed :
      (P : Owner → Type 0) (j : ShardId) (o : Owner) (srv : Server) (db : Db) (c : Checked)
      (peer shard token grant : Bytes) (s : Option (Descriptor × Owner)) (reason now : ℕ)
      → srv.ledger ≡ some db
      → Passes P srv c
      → Changed
          ((hash_of shard ≡ j) × P o)
          j
          o
          (some db)
          (put_checked hash_of sigs meets_pow conf c db peer shard token s grant reason
            now).1.ledger
  put_checked-Changed P j o srv db (denied e srv') peer shard token grant s reason now h p =
      inl (ap (held j o) (p.0 ∙ h))
  put_checked-Changed P j o srv db (admitted owner srv') peer shard token grant s reason now h p =
      let id = hash_of shard in
      let r = add_owner conf.options db id owner (length shard) (now / second) in
      let same = put_reply-held j o db _ r s id grant (p.1.0 ∙ h) in
      let others = λ (off : (id == j) && (owner == o) ≡ false).
        same ∙ rows_of-add_owner id j owner o off conf.options db (length shard) (now / second) in
      elim (bytes_eq.dec id j) [
        | yes here ↦ elim (bytes_eq.dec owner o) [
          | yes mine ↦ inr (here, subst P mine p.0)
          | no other ↦ inl (others (ground arith))
        ]
        | no other ↦ inl (others (ground arith))
      ]

  delete_checked-Changed :
      (j : ShardId) (o : Owner) (P : Owner → Type 0) (srv : Server) (db : Db) (c : Checked)
      (id : ShardId)
      → srv.ledger ≡ some db
      → Passes P srv c
      → Changed
          ((id ≡ j) × P o)
          j
          o
          (some db)
          (delete_checked hash_of sigs meets_pow conf c db id).1.ledger
  delete_checked-Changed j o P srv db (denied e srv') id h p = inl (ap (held j o) (p.0 ∙ h))
  delete_checked-Changed j o P srv db (admitted owner srv') id h p =
      let r = remove_owner db id owner in
      let same =
        delete_reply-held j o db srv' id r (remove_owner-Counted db id owner) (p.1.0 ∙ h) in
      let others = λ (off : (id == j) && (owner == o) ≡ false).
        same ∙ rows_of-remove_owner id j owner o off db in
      elim (bytes_eq.dec id j) [
        | yes here ↦ elim (bytes_eq.dec owner o) [
          | yes mine ↦ inr (here, subst P mine p.0)
          | no other ↦ inl (others (ground arith))
        ]
        | no other ↦ inl (others (ground arith))
      ]

  renew_reply-held :
      (j : ShardId) (o : Owner) (db : Db) (srv : Server) (r : Result Db)
      → srv.ledger ≡ some db
      → held j o (renew_reply r srv).1.ledger ≡ rows_of j o (state_or db r).owners
  renew_reply-held j o db srv (Ledger.err e) h = ap (held j o) h
  renew_reply-held j o db srv (Ledger.ok db') h = refl

  renew_with-Changed :
      (j : ShardId) (o : Owner) (P : Owner → Type 0) (srv : Server) (c : Checked) (l : Option Db)
      (id : ShardId) (now : ℕ)
      → srv.ledger ≡ l
      → Passes P srv c
      → Changed ((id ≡ j) × P o) j o l (renew_with hash_of sigs meets_pow conf c l id now).1.ledger
  renew_with-Changed j o P srv (denied e srv') l id now h p = inl (ap (held j o) (p.0 ∙ h))
  renew_with-Changed j o P srv (admitted owner srv') none id now h p =
      inl (ap (held j o) (p.1.0 ∙ h))
  renew_with-Changed j o P srv (admitted owner srv') (some db) id now h p =
      let same =
        renew_reply-held j o db srv' (renew_lease conf.options db id owner (now / second))
          (p.1.0 ∙ h) in
      let others = λ (off : (id == j) && (owner == o) ≡ false).
        same ∙ rows_of-renew_lease id j owner o off conf.options db (now / second) in
      elim (bytes_eq.dec id j) [
        | yes here ↦ elim (bytes_eq.dec owner o) [
          | yes mine ↦ inr (here, subst P mine p.0)
          | no other ↦ inl (others (ground arith))
        ]
        | no other ↦ inl (others (ground arith))
      ]

  revoke_with-held :
      (j : ShardId) (o : Owner) (P : Owner → Type 0) (srv : Server) (c : Checked) (db : Option Db)
      (nonce : Bytes) (now : ℕ)
      → srv.ledger ≡ db
      → Passes P srv c
      → held j o (revoke_with hash_of sigs meets_pow conf c db nonce now).1.ledger ≡ held j o db
  unfolding revoke_grant
  revoke_with-held j o P srv (denied e srv') db nonce now h p = ap (held j o) (p.0 ∙ h)
  revoke_with-held j o P srv (admitted owner srv') none nonce now h p = ap (held j o) (p.1.0 ∙ h)
  revoke_with-held j o P srv (admitted owner srv') (some db) nonce now h p = ground arith

  put_with-Changed :
      (j : ShardId) (o : Owner) (srv : Server) (l : Option Db)
      (peer shard token stripe grant : Bytes) (reason now : ℕ)
      → srv.ledger ≡ l
      → Changed
          ((hash_of shard ≡ j)
            × PutAuthority hash_of sigs meets_pow conf (hash_of shard) token stripe grant now o)
          j
          o
          l
          (put_with hash_of sigs meets_pow conf l srv peer shard token
            (stripe_of hash_of sigs meets_pow conf (hash_of shard) stripe grant now)
            grant
            reason
            now).1.ledger
  put_with-Changed j o srv none peer shard token stripe grant reason now h = inl (ap (held j o) h)
  put_with-Changed j o srv (some db) peer shard token stripe grant reason now h =
      let s = stripe_of hash_of sigs meets_pow conf (hash_of shard) stripe grant now in
      elim (Bool-cases (grant_refused db s grant)) [
        | inl revoked ↦ rw revoked (inl (ap (held j o) h))
        | inr live ↦ rw live (
            put_checked-Changed _ j o srv db _ peer shard token grant s reason now h (
              PutAuthority-Passes hash_of sigs meets_pow conf srv (hash_of shard) token stripe grant
                now))
      ]

  delete_with-Changed :
      (j : ShardId) (o : Owner) (srv : Server) (l : Option Db) (id : ShardId) (token : Bytes)
      (now : ℕ)
      → srv.ledger ≡ l
      → Changed
          ((id ≡ j) × DeleteAuthority hash_of sigs meets_pow conf id token now o)
          j
          o
          l
          (delete_with hash_of sigs meets_pow conf l srv id token now).1.ledger
  delete_with-Changed j o srv none id token now h = inl (ap (held j o) h)
  delete_with-Changed j o srv (some db) id token now h =
      delete_checked-Changed j o _ srv db _ id h
        (DeleteAuthority-Passes hash_of sigs meets_pow conf srv id token now)

  -- What a request must bear to change the claim of an owner on a shard.
  abbrev pub Word : Request → ShardId → Owner → ℕ → Type 0
  Word (put_request shard token stripe grant reason) j o now =
      (hash_of shard ≡ j)
      × PutAuthority hash_of sigs meets_pow conf (hash_of shard) token stripe grant now o
  Word (delete_request id token) j o now =
      (id ≡ j) × DeleteAuthority hash_of sigs meets_pow conf id token now o
  Word (renew_request id token) j o now =
      (id ≡ j) × RenewAuthority hash_of sigs meets_pow conf id token now o
  Word r j o now = ⊥

  -- A request leaves the claim of an owner on a shard as it was, the time of its put and its expiry
  -- included, or it is a PUT, a RENEW or a DELETE of that shard with a token of that owner for that
  -- verb and shard, or a PUT of that shard with a grant of that owner for a stripe that names it.
  pub serve-Word :
      (srv : Server) (peer : Bytes) (now : ℕ) (r : Request) (j : ShardId) (o : Owner)
      → (held j o (serve hash_of sigs meets_pow conf srv peer now r).1.ledger ≡ held j o srv.ledger)
        ⊎ Word r j o now
  unfolding serve handle_put handle_delete handle_renew handle_revoke_grant
  serve-Word srv peer now (put_request shard token stripe grant reason) j o =
      elim (Bool-cases (has_slot hash_of sigs meets_pow conf srv.free_slots)) [
        | inr full ↦ rw full (inl refl)
        | inl room ↦
            rw room
              (put_with-Changed j o srv srv.ledger peer shard token stripe grant reason now refl)
      ]
  serve-Word srv peer now (get_request id) j o = inl refl
  serve-Word srv peer now (has_request id) j o = inl refl
  serve-Word srv peer now (delete_request id token) j o =
      delete_with-Changed j o srv srv.ledger id token now refl
  serve-Word srv peer now (renew_request id token) j o =
      renew_with-Changed j o _ srv _ srv.ledger id now refl
        (check_token-Passes hash_of sigs meets_pow conf srv op_renew id token now)
  serve-Word srv peer now (revoke_grant_request nonce token) j o = inl (
      revoke_with-held j o _ srv _ srv.ledger nonce now refl
        (check_token-Passes hash_of sigs meets_pow conf srv op_revoke_grant _ token now))
