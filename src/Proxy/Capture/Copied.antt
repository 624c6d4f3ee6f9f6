-- ===== src/Proxy/Capture/Copied.antt =====
-- What the client gets and what is kept of a response, internal/proxy/mitm.go.
use mathlib.Core.List.{append-nil, append_assoc}
use langley.Prelude.{
  ℕ, zero, suc, ◌+◌, ◌-◌, ◌≤◌, ◌<◌, ◌≡◌, ◌∙◌, refl, sym, ap, true, false, List, [], ◌∷◌, ◌++◌,
  Bytes, arith, ltb, leb, ◌==◌, length, length-append, length-take, take, Bool-cases, inl, inr, ◌⊎◌,
}
use langley.Proxy.Capture.{LimitedBuffer, new_buffer, write, copy_chunks, copy_body}

abbrev pub concat : List Bytes → Bytes
concat [] = []
concat (p ∷ ps) = p ++ concat ps

take_all : (n : ℕ) (s : Bytes) → length s ≤ n → take n s ≡ s
take_all zero [] h = refl
take_all (suc n) [] h = refl
take_all (suc n) (c ∷ s) h = ap (◌∷◌ c) (take_all n s (omega arith))
take_all zero (c ∷ s) h = absurd (omega arith)

take-append : (n : ℕ) (s t : Bytes) → length s ≤ n → take n (s ++ t) ≡ s ++ take (n - length s) t
take-append n [] t h = ap (λ k. take k t) (omega arith)
take-append (suc n) (c ∷ s) t h =
    ap (◌∷◌ c) (take-append n s t (omega arith) ∙ ap (λ k. s ++ take k t) (omega arith))
take-append zero (c ∷ s) t h = absurd (omega arith)

take_more : (n : ℕ) (s t : Bytes) → n ≤ length s → take n (s ++ t) ≡ take n s
take_more zero s t h = refl
take_more (suc n) (c ∷ s) t h = ap (◌∷◌ c) (take_more n s t (omega arith))
take_more (suc n) [] t h = absurd (omega arith)

le_cases : (m n : ℕ) → (m ≤ n) ⊎ (n ≤ m)
le_cases m n = grind arith

-- the buffer holds the first bytes of what the client got
pub record Mirrors (client : Bytes) (l : LimitedBuffer) : Type 0 where
  pub kept : l.buf ≡ take l.max client
  pub flagged : l.truncated ≡ ltb l.max (length client)

write-Mirrors :
    (l : LimitedBuffer) (client : Bytes) (c : ℕ) (p : Bytes)
    → Mirrors client l
    → Mirrors (client ++ c ∷ p) (write l (c ∷ p)).0
unfolding write
write-Mirrors l client c p v = elim (Bool-cases (leb l.max (length l.buf))) [
  | inl full ↦
      let reached : l.max ≤ length client = reaches l client v (ground arith) in
      rw full (record {
        kept = v.kept ∙ sym (take_more l.max client (c ∷ p) reached);
        flagged = ground (arith, length-append client (c ∷ p));
      })
  | inr room ↦
      let below : length client < l.max = stays_below l client v (ground arith) in
      let same : l.buf ≡ client = v.kept ∙ take_all l.max client (omega arith) in
      let held : length l.buf ≡ length client = ap length same in
      elim (Bool-cases (ltb (l.max - length l.buf) (length (c ∷ p)))) [
        | inl over ↦
            rw (room, over)
              (record {
                kept = rw same (sym (take-append l.max client (c ∷ p) (omega arith)));
                flagged = ground (arith, length-append client (c ∷ p), held);
              })
        | inr fits ↦
            rw (room, fits)
              (record {
                kept = rw same (
                    sym (
                      take_all l.max (client ++ c ∷ p)
                        (ground (arith, length-append client (c ∷ p), held))));
                flagged = ground (arith, v.flagged, length-append client (c ∷ p), held);
              })
      ]
]
  where
    kept_size : (n : ℕ) (s : Bytes) → length (take n s) ≤ length s
    kept_size n s = elim (le_cases n (length s)) [
      | inl h ↦ omega (arith, length-take n s h)
      | inr h ↦ omega (arith, ap length (take_all n s h))
    ]

    reaches :
        (l : LimitedBuffer) (client : Bytes)
        → Mirrors client l
        → l.max ≤ length l.buf
        → l.max ≤ length client
    reaches l client v h = omega (arith, ap length v.kept, kept_size l.max client)

    stays_below :
        (l : LimitedBuffer) (client : Bytes)
        → Mirrors client l
        → length l.buf < l.max
        → length client < l.max
    stays_below l client v h = elim (le_cases l.max (length client)) [
      | inl k ↦ absurd (omega (arith, ap length v.kept, length-take l.max client k))
      | inr k ↦ omega (arith, ap length v.kept, ap length (take_all l.max client k))
    ]

write-max : (l : LimitedBuffer) (p : Bytes) → (write l p).0.max ≡ l.max
unfolding write
write-max l p = ground arith

copy_chunks-Mirrors :
    (ps : List Bytes) (client : Bytes) (l : LimitedBuffer)
    → Mirrors client l
    → Mirrors (copy_chunks client l ps).client (copy_chunks client l ps).capture
      × ((copy_chunks client l ps).capture.max ≡ l.max)
unfolding copy_chunks
copy_chunks-Mirrors [] client l v = (v, refl)
copy_chunks-Mirrors ([] ∷ ps) client l v = copy_chunks-Mirrors ps client l v
copy_chunks-Mirrors ((c ∷ p) ∷ ps) client l v =
    let next = write-Mirrors l client c p v in
    elim (Bool-cases ((write l (c ∷ p)).1 == length (c ∷ p))) [
      | inl whole ↦
          let (w, kept) = copy_chunks-Mirrors ps (client ++ c ∷ p) (write l (c ∷ p)).0 next in
          rw whole (w, kept ∙ write-max l (c ∷ p))
      | inr short ↦ rw short (next, write-max l (c ∷ p))
    ]

-- Whatever the reader returns, the stored body is the first bytes, up to the limit, of what the
-- client got, and it is marked as truncated exactly when the client got more than that.
pub copy_body_mirrors :
    (max : ℕ) (chunks : List Bytes)
    → ((copy_body max chunks).capture.buf ≡ take max (copy_body max chunks).client)
      × ((copy_body max chunks).capture.truncated ≡ ltb max (length (copy_body max chunks).client))
unfolding copy_body
copy_body_mirrors max chunks =
    let (v, kept) =
      copy_chunks-Mirrors chunks [] (new_buffer max)
        (record { kept = sym (take_all max [] (omega arith)); flagged = ground arith }) in
    (
      v.kept ∙ ap (λ n. take n (copy_chunks [] (new_buffer max) chunks).client) kept,
      v.flagged ∙ ap (λ n. ltb n (length (copy_chunks [] (new_buffer max) chunks).client)) kept,
    )

pub write_fits :
    (max : ℕ) (b p : Bytes)
    → 0 < length p
    → length b + length p ≤ max
    → write (record { buf = b; max = max; truncated = false }) p
      ≡ (record { buf = b ++ p; max = max; truncated = false }, length p)
unfolding write
write_fits max b p pos h = ground arith

-- the copy of chunks that fit, and then the rest
copy_prefix :
    (pre rest : List Bytes) (max : ℕ) (b : Bytes)
    → length b + length (concat pre) ≤ max
    → copy_chunks b (record { buf = b; max = max; truncated = false }) (pre ++ rest)
      ≡ copy_chunks
          (b ++ concat pre)
          (record { buf = b ++ concat pre; max = max; truncated = false })
          rest
unfolding copy_chunks
copy_prefix [] rest max b h = simp append-nil
copy_prefix ([] ∷ pre) rest max b h = copy_prefix pre rest max b h
copy_prefix ((c ∷ p) ∷ pre) rest max b h =
    let size = length-append (c ∷ p) (concat pre) in
    let whole : (length (c ∷ p) == length (c ∷ p)) ≡ true = ground arith in
    rw (write_fits max b (c ∷ p) (omega arith) (omega (arith, size)), whole)
      (copy_prefix pre rest max (b ++ c ∷ p) (omega (arith, size, length-append b (c ∷ p)))
        ∙ ap (λ t. copy_chunks t (record { buf = t; max = max; truncated = false }) rest)
            (append_assoc b (c ∷ p) (concat pre)))

-- A body within the limit reaches the client whole, is stored whole, and is not marked.
pub copy_body_fits :
    (max : ℕ) (chunks : List Bytes)
    → length (concat chunks) ≤ max
    → copy_body max chunks ≡ record {
      client = concat chunks;
      capture = record { buf = concat chunks; max = max; truncated = false };
      failed = false;
    }
unfolding copy_body
copy_body_fits max chunks h =
    ap (copy_chunks [] (new_buffer max)) (sym (append-nil chunks))
    ∙ copy_prefix chunks [] max [] (omega arith)
    ∙ (unfold copy_chunks in refl)

short_write :
    (max : ℕ) (b : Bytes) (c : ℕ) (p : Bytes)
    → length b < max
    → max < length b + length (c ∷ p)
    → ((write (record { buf = b; max = max; truncated = false }) (c ∷ p)).1 == length (c ∷ p))
      ≡ false
unfolding write
short_write max b c p below over = ground (arith, length-take (max - length b) (c ∷ p))

-- Where the limit falls inside a chunk, the client gets the chunks up to that one, the copy ends
-- in an error, and nothing of the later chunks reaches the client.
pub copy_body_cut :
    (max : ℕ) (pre post : List Bytes) (c : ℕ) (p : Bytes)
    → length (concat pre) < max
    → max < length (concat pre) + length (c ∷ p)
    → ((copy_body max (pre ++ (c ∷ p) ∷ post)).client ≡ concat pre ++ c ∷ p)
      × ((copy_body max (pre ++ (c ∷ p) ∷ post)).failed ≡ true)
unfolding copy_body
copy_body_cut max pre post c p below over =
    rw (copy_prefix pre ((c ∷ p) ∷ post) max [] (omega arith))
      (cut_here max (concat pre) post c p below over)
  where
    cut_here :
        (max : ℕ) (b : Bytes) (post : List Bytes) (c : ℕ) (p : Bytes)
        → length b < max
        → max < length b + length (c ∷ p)
        → ((copy_chunks b
              (record { buf = b; max = max; truncated = false })
              ((c ∷ p) ∷ post)).client
            ≡ b ++ c ∷ p)
          × ((copy_chunks b
                (record { buf = b; max = max; truncated = false })
                ((c ∷ p) ∷ post)).failed
              ≡ true)
    cut_here max b post c p below over =
        let short : ((write (record { buf = b; max = max; truncated = false }) (c ∷ p)).1
              == length (c ∷ p))
            ≡ false =
          short_write max b c p below over in
        unfold copy_chunks in rw short (refl, refl)
