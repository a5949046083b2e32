-- ===== src/Server/Authority/Passed.antt =====
-- What the checks of a request have established when they admit it.
use mathlib.Core.Option.{some-injective}
use revika.Base.{
  subst, ℕ, ◌/◌, ◌≡◌, refl, ◌⊎◌, inl, inr, Bool, true, false, Option, none, some, [], ◌∷◌, eqb,
  Bytes, bytes_eq, Bool-cases, Option-cases,
}
use revika.Cap.{Signatures}
use revika.Store.{ShardId}
use revika.Ledger.{Owner}
use revika.Stripe.{Descriptor, contains, unmarshal, verify_grant}
use revika.Net.AuthCache.{second, seen}
use revika.Net.RateLimit.{allow}
use revika.Net.Token.{token_signature, verify_token}
use revika.Net.Wire.{Op, op_put, op_delete, op_renew}
use revika.Server.{
  Config, Server, Checked, admitted, denied, after_seen, check_owner, after_allow, meter,
}
use revika.Server.Handle.{check_token, enforce_pow, stripe_of, put_authority}

-- The checks touch neither the ledger nor the store.
abbrev pub Untouched : Server → Server → Type 0
Untouched srv srv' = (srv'.ledger ≡ srv.ledger) × (srv'.store ≡ srv.store)

-- An admitted owner satisfies `P`.
abbrev pub Passes : (Owner → Type 0) → Server → Checked → Type 0
Passes P srv (admitted owner srv') = P owner × Untouched srv srv'
Passes P srv (denied e srv') = Untouched srv srv'

after_seen-Passes :
    (P : Owner → Type 0) (srv srv' : Server) (owner : Owner) (again : Bool)
    → P owner
    → Untouched srv srv'
    → Passes P srv (after_seen owner again srv')
after_seen-Passes P srv srv' owner true h u = u
after_seen-Passes P srv srv' owner false h u = (h, u)

check_owner-Passes :
    (r : Option Owner) (token : Bytes) (now : ℕ) (srv : Server)
    → Passes (λ o. r ≡ some o) srv (check_owner r token now srv)
check_owner-Passes none token now srv = (refl, refl)
check_owner-Passes (some owner) token now srv =
    after_seen-Passes (λ o. some owner ≡ some o) srv _ owner
      (seen srv.tokens (token_signature token) now).0 refl (refl, refl)

meter-Passes :
    (P : Owner → Type 0) (srv : Server) (c : Checked) (now : ℕ)
    → Passes P srv c
    → Passes P srv (meter c now)
meter-Passes P srv (denied e srv') now h = h
meter-Passes P srv (admitted owner srv') now h = allowed (allow srv'.limiter owner now).0
  where
    allowed :
        (ok : Bool)
        → Passes P srv
            (after_allow owner ok (record srv' { limiter = (allow srv'.limiter owner now).1 }))
    allowed true = h
    allowed false = h.1

module _ (hash_of : Bytes → ShardId) (sigs : Signatures) (meets_pow : Bytes → ℕ → Bool)
    (conf : Config) where
  pub check_token-Passes :
      (srv : Server) (o : Op) (id : ShardId) (token : Bytes) (now : ℕ)
      → Passes
          (λ owner. verify_token sigs token o id conf.node now ≡ some owner)
          srv
          (check_token hash_of sigs meets_pow conf srv o id token now)
  unfolding check_token
  check_token-Passes srv o id token now =
      check_owner-Passes (verify_token sigs token o id conf.node now) token now srv

  enforce_pow-Passes :
      (P : Owner → Type 0) (srv : Server) (c : Checked)
      → Passes P srv c
      → Passes P srv (enforce_pow hash_of sigs meets_pow conf c)
  unfolding enforce_pow
  enforce_pow-Passes P srv (denied e srv') h = h
  enforce_pow-Passes P srv (admitted owner srv') h = elim (Bool-cases (eqb conf.pow_min 0)) [
    | inl off ↦ rw off h
    | inr on ↦ elim (Bool-cases (meets_pow owner conf.pow_min)) [
      | inl meets ↦ rw (on, meets) h
      | inr fails ↦ rw (on, fails) h.1
    ]
  ]

  -- A token for this write, or a grant of the owner for a stripe that names the shard.
  abbrev pub PutAuthority : ShardId → Bytes → Bytes → Bytes → ℕ → Owner → Type 0
  PutAuthority id token stripe grant now owner =
      (verify_token sigs token op_put id conf.node now ≡ some owner)
      ⊎ ((d : Descriptor) × ((unmarshal stripe ≡ some d)
            × ((contains d id ≡ true) × (verify_grant sigs grant d (now / second) ≡ some owner))))

  abbrev pub DeleteAuthority : ShardId → Bytes → ℕ → Owner → Type 0
  DeleteAuthority id token now owner =
      verify_token sigs token op_delete id conf.node now ≡ some owner

  abbrev pub RenewAuthority : ShardId → Bytes → ℕ → Owner → Type 0
  RenewAuthority id token now owner = verify_token sigs token op_renew id conf.node now ≡ some owner

  -- The grant that `stripe_of` accepts.
  abbrev Granted : ShardId → Bytes → Bytes → ℕ → Descriptor × Owner → Type 0
  Granted id stripe grant now p =
      (unmarshal stripe ≡ some p.0)
      × ((contains p.0 id ≡ true) × (verify_grant sigs grant p.0 (now / second) ≡ some p.1))

  stripe_of-Granted :
      (id : ShardId) (stripe grant : Bytes) (now : ℕ) (p : Descriptor × Owner)
      → stripe_of hash_of sigs meets_pow conf id stripe grant now ≡ some p
      → Granted id stripe grant now p
  unfolding stripe_of
  stripe_of-Granted id [] grant now p h = absurd (cc h)
  stripe_of-Granted id (b ∷ stripe) [] now p h = absurd (cc h)
  stripe_of-Granted id (b ∷ stripe) (g ∷ grant) now p h =
      elim (Option-cases (unmarshal (b ∷ stripe))) [
        | inl bad ↦ absurd (let e : none ≡ some p = rw bad at h in cc)
        | inr (d, read) ↦ elim (Option-cases (verify_grant sigs (g ∷ grant) d (now / second))) [
          | inl bad ↦ absurd (let e : none ≡ some p = rw (read, bad) at h in cc)
          | inr (owner, signed) ↦ elim (Bool-cases (contains d id)) [
            | inr other ↦ absurd (let e : none ≡ some p = rw (read, signed, other) at h in cc)
            | inl here ↦
                let e : some (d, owner) ≡ some p = rw (read, signed, here) at h in
                subst (Granted id (b ∷ stripe) (g ∷ grant) now) (some-injective _ _ e)
                  (read, (here, signed))
          ]
        ]
      ]

  PutAuthority-Passes_by :
      (srv : Server) (id : ShardId) (token stripe grant : Bytes) (now : ℕ)
      (s : Option (Descriptor × Owner))
      → stripe_of hash_of sigs meets_pow conf id stripe grant now ≡ s
      → Passes
          (PutAuthority id token stripe grant now)
          srv
          (put_authority hash_of sigs meets_pow conf srv id token s now)
  unfolding put_authority
  PutAuthority-Passes_by srv id [] stripe grant now none h = (refl, refl)
  PutAuthority-Passes_by srv id [] stripe grant now (some p) h =
      (inr (p.0, stripe_of-Granted id stripe grant now p h), (refl, refl))
  PutAuthority-Passes_by srv id (b ∷ token) stripe grant now s h =
      let c = check_token hash_of sigs meets_pow conf srv op_put id (b ∷ token) now in
      weaken (meter (enforce_pow hash_of sigs meets_pow conf c) now) (
        meter-Passes _ srv (enforce_pow hash_of sigs meets_pow conf c) now
          (enforce_pow-Passes _ srv c (check_token-Passes srv op_put id (b ∷ token) now)))
    where
      weaken :
          (c : Checked)
          → Passes
              (λ owner. verify_token sigs (b ∷ token) op_put id conf.node now ≡ some owner)
              srv
              c
          → Passes (PutAuthority id (b ∷ token) stripe grant now) srv c
      weaken (admitted owner srv') p = (inl p.0, p.1)
      weaken (denied e srv') p = p

  pub PutAuthority-Passes :
      (srv : Server) (id : ShardId) (token stripe grant : Bytes) (now : ℕ)
      → Passes (PutAuthority id token stripe grant now) srv (
          put_authority hash_of sigs meets_pow conf srv id token
            (stripe_of hash_of sigs meets_pow conf id stripe grant now)
            now)
  PutAuthority-Passes srv id token stripe grant now =
      PutAuthority-Passes_by srv id token stripe grant now _ refl

  pub DeleteAuthority-Passes :
      (srv : Server) (id : ShardId) (token : Bytes) (now : ℕ)
      → Passes
          (DeleteAuthority id token now)
          srv
          (meter (check_token hash_of sigs meets_pow conf srv op_delete id token now) now)
  DeleteAuthority-Passes srv id token now =
      meter-Passes _ srv (check_token hash_of sigs meets_pow conf srv op_delete id token now) now
        (check_token-Passes srv op_delete id token now)
