-- ===== src/Pricing/Lookup.antt =====
-- Prices that internal/pricing/litellm.go has loaded are found again.
use langley.Prelude.{
  ℕ, ◌≡◌, ◌≢◌, refl, ◌∙◌, [], ◌∷◌, ◌++◌, Option, none, some, ◌>>=◌, Bytes, Dict, lookup, insert,
  lookup-insert_self, lookup-insert_ne,
}
use langley.Pricing.{
  ModelPrice, Entry, PriceSource, normalize_provider, get_price, entry_price, entry_key, load_entry,
  load_entries, parse_and_load,
}

module _ (decode_entries : Bytes → Option (Dict Bytes)) (decode_entry : Bytes → Option Entry) where
  -- no entry of the list is loaded under the key
  abbrev pub NoKey : Bytes → Dict Bytes → Type 0
  NoKey key [] = Unit {0}
  NoKey key ((name, raw) ∷ entries) =
      ((e : Entry) → decode_entry raw ≡ some e → entry_key name e ≢ key) × NoKey key entries

  lookup-load_entry_ne :
      (key : Bytes) (prices : Dict ModelPrice) (name raw : Bytes)
      → ((e : Entry) → decode_entry raw ≡ some e → entry_key name e ≢ key)
      → lookup key (load_entry decode_entries decode_entry prices name raw) ≡ lookup key prices
  unfolding load_entry
  lookup-load_entry_ne key prices name raw h = by_entry (decode_entry raw) h
    where
      by_price :
          (e : Entry) (o : Option ModelPrice)
          → entry_key name e ≢ key
          → lookup key
              (elim o [ none ↦ prices | some price ↦ insert (entry_key name e) price prices ])
            ≡ lookup key prices
      by_price e none k = refl
      by_price e (some price) k = lookup-insert_ne (entry_key name e) key price prices k

      by_entry :
          (d : Option Entry)
          → ((e : Entry) → d ≡ some e → entry_key name e ≢ key)
          → lookup key (elim d [
            | none ↦ prices
            | some e ↦ elim (entry_price name e) [
              | none ↦ prices
              | some price ↦ insert (entry_key name e) price prices
            ]
          ])
            ≡ lookup key prices
      by_entry none k = refl
      by_entry (some e) k = by_price e (entry_price name e) (k e refl)

  lookup-load_entries_ne :
      (key : Bytes) (prices : Dict ModelPrice) (entries : Dict Bytes)
      → NoKey key entries
      → lookup key (load_entries decode_entries decode_entry prices entries) ≡ lookup key prices
  unfolding load_entries
  lookup-load_entries_ne key prices [] h = refl
  lookup-load_entries_ne key prices ((name, raw) ∷ entries) h =
      lookup-load_entries_ne key (load_entry decode_entries decode_entry prices name raw) entries
        h.1
      ∙ lookup-load_entry_ne key prices name raw h.0

  lookup-load_entry_self :
      (prices : Dict ModelPrice) (name raw : Bytes) (e : Entry) (price : ModelPrice)
      → decode_entry raw ≡ some e
      → entry_price name e ≡ some price
      → lookup (entry_key name e) (load_entry decode_entries decode_entry prices name raw)
        ≡ some price
  unfolding load_entry
  lookup-load_entry_self prices name raw e price d p =
      rw (load_entry, d, p) (lookup-insert_self (entry_key name e) price prices)

  lookup-load_entries :
      (prices : Dict ModelPrice) (before : Dict Bytes) (name raw : Bytes) (after : Dict Bytes)
      (e : Entry) (price : ModelPrice)
      → decode_entry raw ≡ some e
      → entry_price name e ≡ some price
      → NoKey (entry_key name e) after
      → lookup
          (entry_key name e)
          (load_entries decode_entries decode_entry prices (before ++ (name, raw) ∷ after))
        ≡ some price
  unfolding load_entries
  lookup-load_entries prices [] name raw after e price d p h =
      lookup-load_entries_ne (entry_key name e) _ after h
      ∙ lookup-load_entry_self prices name raw e price d p
  lookup-load_entries prices ((n, r) ∷ before) name raw after e price d p h =
      lookup-load_entries (load_entry decode_entries decode_entry prices n r) before name raw after
        e price d p h

  -- Once parseAndLoad has loaded a body, GetPrice finds each of its entries that is a chat model
  -- with token prices: asked with the entry's model name and a provider of the same normal form, it
  -- gives the price of this entry, unless a later entry has the same key.
  pub get_price-parse_and_load :
      (s : PriceSource) (now : ℕ) (body : Bytes) (before : Dict Bytes) (name raw : Bytes)
      (after : Dict Bytes) (e : Entry) (price : ModelPrice) (provider : Bytes)
      → decode_entries body ≡ some (before ++ (name, raw) ∷ after)
      → decode_entry raw ≡ some e
      → entry_price name e ≡ some price
      → NoKey (entry_key name e) after
      → normalize_provider provider ≡ normalize_provider e.litellm_provider
      → (loaded : PriceSource) × ((parse_and_load decode_entries decode_entry s now body
            ≡ some loaded)
          × (get_price loaded provider name ≡ some price))
  unfolding parse_and_load get_price entry_key
  get_price-parse_and_load s now body before name raw after e price provider b d p h same =
      let found = lookup-load_entries [] before name raw after e price d p h in
      (
        record s {
          prices = load_entries decode_entries decode_entry [] (before ++ (name, raw) ∷ after);
          fetched_at = now;
        },
        (rw (b, ◌>>=◌) refl, rw (get_price, same, found) refl),
      )
