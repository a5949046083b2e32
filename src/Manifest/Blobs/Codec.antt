-- ===== src/Manifest/Blobs/Codec.antt =====
-- The JSON form of a directory (internal/manifest/manifest.go, dir.go) is read back.
use revika.Base.{
  suc, ℕ, ◌<◌, ◌≤◌, ◌^◌, ◌≡◌, refl, sym, ap, ◌∙◌, subst, true, false, some, List, [], ◌∷◌, length,
  ltb, map, Bytes, arith, All,
}
use revika.Net.RootSelect.Agreed.{bytes_ltb_asym}
use revika.Manifest.{ReadCap, Entry, DirManifest, sort_by_name, insert_by_name}
use revika.Manifest.Entries.{IsSorted, After}
use revika.Manifest.Blobs.{
  max_shards, Json, JsonEntry, is_utf8, decode_width, decode_ids, marshal_cap, unmarshal_cap,
  marshal_entry, unmarshal_entries, encode_dir, decode_dir,
}

-- A cap that `UnmarshalJSON` does not refuse: for the number of its shards, or the size of a name or of
-- the key.
abbrev pub FitsCap : ReadCap → Type 0
FitsCap c =
    (length c.key ≡ 32) × (All (λ id. length id ≡ 32) c.shards × (length c.shards ≤ max_shards))

abbrev pub FitsEntry : Entry → Type 0
FitsEntry e = FitsCap e.cap × (is_utf8 e.name ≡ true)

-- The texts of an entry are valid UTF-8.
abbrev pub HasTexts : JsonEntry → Type 0
HasTexts j =
    (is_utf8 j.name ≡ true)
    × ((is_utf8 j.cap.key ≡ true) × All (λ t. is_utf8 t ≡ true) j.cap.shards)

-- What the libraries promise: hexadecimal texts are valid UTF-8 and are read back; JSON reads back
-- entries whose texts are valid UTF-8; and a slice of bytes is shorter than 2 ^ 63.
pub record JsonLaws {ℓ} {M : Type ℓ} (json : Json M) : Type ℓ where
  pub hex_back : (bytes : Bytes) → json.hex.decode_hex (json.hex.encode_hex bytes) ≡ some bytes
  pub hex_text : (bytes : Bytes) → is_utf8 (json.hex.encode_hex bytes) ≡ true
  pub reads_back :
      (v : ℕ) (attrs : M) (entries : List JsonEntry) (bytes : Bytes)
      → All HasTexts entries
      → json.marshal v attrs entries ≡ some bytes
      → json.unmarshal bytes ≡ some (v, (attrs, entries))
  pub short :
      (v : ℕ) (attrs : M) (entries : List JsonEntry) (bytes : Bytes)
      → json.marshal v attrs entries ≡ some bytes
      → length bytes < 2 ^ 63

insert_first : (e : Entry) (xs : List Entry) → After e.name xs → insert_by_name e xs ≡ e ∷ xs
unfolding insert_by_name
insert_first e [] h = refl
insert_first e (x ∷ xs) h = rw (bytes_ltb_asym e.name x.name h.0) refl

sort_sorted : (xs : List Entry) → IsSorted xs → sort_by_name xs ≡ xs
unfolding sort_by_name
sort_sorted [] h = refl
sort_sorted (x ∷ xs) h = rw (sort_sorted xs h.1) (insert_first x xs h.0)

module _ {M : Type 0} (json : Json M) (laws : JsonLaws json) where
  decode_width-encode :
      (raw : Bytes) → length raw ≡ 32 → decode_width json.hex (json.hex.encode_hex raw) ≡ some raw
  decode_width-encode raw h = rw (laws.hex_back raw, h) refl

  decode_ids-encode :
      (ids : List Bytes)
      → All (λ id. length id ≡ 32) ids
      → decode_ids json.hex (map json.hex.encode_hex ids) ≡ some ids
  decode_ids-encode [] h = refl
  decode_ids-encode (id ∷ ids) h = rw (decode_width-encode id h.0, decode_ids-encode ids h.1) refl

  length-hexes : (ids : List Bytes) → length (map json.hex.encode_hex ids) ≡ length ids
  length-hexes [] = refl
  length-hexes (id ∷ ids) = ap suc (length-hexes ids)

  unmarshal_cap-marshal_cap :
      (c : ReadCap) → FitsCap c → unmarshal_cap json.hex (marshal_cap json.hex c) ≡ some c
  unfolding unmarshal_cap marshal_cap
  unmarshal_cap-marshal_cap c (k, (ids, few)) =
      let allowed : ltb 256 (length (map json.hex.encode_hex c.shards)) ≡ false =
        ground (arith, length-hexes c.shards, few) in
      rw (decode_width-encode c.key k, allowed, decode_ids-encode c.shards ids) refl

  unmarshal_entries-marshal :
      (es : List Entry)
      → All FitsEntry es
      → unmarshal_entries json.hex (map (marshal_entry json.hex) es) ≡ some es
  unfolding unmarshal_entries marshal_entry
  unmarshal_entries-marshal [] h = refl
  unmarshal_entries-marshal (e ∷ es) h =
      rw (unmarshal_cap-marshal_cap e.cap h.0.0, unmarshal_entries-marshal es h.1) refl

  hexes-texts : (ids : List Bytes) → All (λ t. is_utf8 t ≡ true) (map json.hex.encode_hex ids)
  hexes-texts [] = tt
  hexes-texts (id ∷ ids) = (laws.hex_text id, hexes-texts ids)

  entries-HasTexts :
      (es : List Entry) → All FitsEntry es → All HasTexts (map (marshal_entry json.hex) es)
  unfolding marshal_entry marshal_cap
  entries-HasTexts [] h = tt
  entries-HasTexts (e ∷ es) h =
      ((h.0.1, (laws.hex_text e.cap.key, hexes-texts e.cap.shards)), entries-HasTexts es h.1)

  -- A directory in order, with caps and names that fit, is read back.
  pub decode_dir-encode_dir :
      (d : DirManifest M) (bytes : Bytes)
      → IsSorted d.entries
      → All FitsEntry d.entries
      → encode_dir json d ≡ some bytes
      → decode_dir json bytes ≡ some d
  unfolding encode_dir decode_dir
  decode_dir-encode_dir d bytes sorted fits h =
      let own = sort_sorted d.entries sorted in
      let fit : All FitsEntry (sort_by_name d.entries) = subst (All FitsEntry) (sym own) fits in
      rw
        (
          laws.reads_back 1 d.attrs (map (marshal_entry json.hex) (sort_by_name d.entries)) bytes
              (entries-HasTexts (sort_by_name d.entries) fit) h,
          unmarshal_entries-marshal (sort_by_name d.entries) fit,
        )
        (ap (λ es. some (record { attrs = d.attrs; entries = es })) (ap sort_by_name own ∙ own))

  pub encoded_short :
      (d : DirManifest M) (bytes : Bytes) → encode_dir json d ≡ some bytes → length bytes < 2 ^ 63
  unfolding encode_dir
  encoded_short d bytes h =
      laws.short 1 d.attrs (map (marshal_entry json.hex) (sort_by_name d.entries)) bytes h
