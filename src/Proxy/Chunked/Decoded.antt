-- ===== src/Proxy/Chunked/Decoded.antt =====
-- A reader of the chunked format, as RFC 9112 describes it, gets back what chunkedWriter of
-- internal/proxy/mitm.go was given.
use mathlib.Core.List.{append_assoc}
use langley.Prelude.{
  every_below, every_below_sound, ℕ, zero, suc, ◌+◌, ◌-◌, ◌*◌, ◌/◌, ◌%◌, ◌≤◌, ◌<◌, ◌≡◌, ◌∙◌, refl,
  ap, Bool, true, false, ◌&&◌, ◌||◌, List, [], ◌∷◌, ◌++◌, Option, none, some, Bytes, arith, ltb,
  leb, ◌==◌, ◌>>=◌, if◌then◌else◌, length, length-append, take, drop, get_or, Bool-cases, inl, inr,
}
use langley.Go.Strings.{hex_digits}
use langley.Proxy.Chunked.{hex_loop, format_hex, crlf, write_chunk, write_all}

abbrev is_hex : ℕ → Bool
is_hex c = leb b'0' c && leb c b'9' || leb b'a' c && leb c b'f'

abbrev hex_value : ℕ → ℕ
hex_value c = if ltb c b'a' then c - b'0' else c - b'a' + 10

-- the number at the front of a text, and what follows it
pub read_hex : ℕ → Bytes → ℕ × Bytes
read_hex acc [] = (acc, [])
read_hex acc (c ∷ s) =
    let rest = read_hex (acc * 16 + hex_value c) s in if is_hex c then rest else (acc, c ∷ s)

pub read_crlf : Bytes → Option Bytes
read_crlf [] = none
read_crlf (c ∷ []) = none
read_crlf (c ∷ d ∷ s) = if c == 13 && d == 10 then some s else none

-- the data of a chunked body and what follows it; `none` is a malformed body, or no fuel left
pub read_chunks : ℕ → Bytes → Option (Bytes × Bytes)
read_chunks zero s = none
read_chunks (suc k) s = do
  let (n, r) = read_hex 0 s
  body ← read_crlf r
  let done = do rest ← read_crlf body; some ([], rest)
  let more = do
    next ← read_crlf (drop n body)
    (p, rest) ← read_chunks k next
    some (take n body ++ p, rest)
  if n == 0 then done else if leb n (length body) then more else none

hex_table :
    every_below (λ x. is_hex (get_or hex_digits x 0) && hex_value (get_or hex_digits x 0) == x) 16
    ≡ true
unfolding every_below
hex_table = refl

hex_digit_lem :
    (x : ℕ)
    → x < 16
    → (is_hex (get_or hex_digits x 0) ≡ true) × (hex_value (get_or hex_digits x 0) ≡ x)
hex_digit_lem x h = split _ _ (every_below_sound _ 16 x h hex_table)
  where
    split : (b : Bool) (y : ℕ) → (b && y == x) ≡ true → (b ≡ true) × (y ≡ x)
    split b y e = ground arith

read_hex-digit :
    (x acc : ℕ) (s : Bytes)
    → x < 16
    → read_hex acc (get_or hex_digits x 0 ∷ s) ≡ read_hex (acc * 16 + x) s
unfolding read_hex
read_hex-digit x acc s h = let (digit, value) = hex_digit_lem x h in rw (digit, value) refl

read_hex-loop :
    (k n : ℕ) (out s : Bytes) → n ≤ k → read_hex 0 (hex_loop k n out ++ s) ≡ read_hex n (out ++ s)
unfolding hex_loop
read_hex-loop zero n out s h = ap (λ t. read_hex t (out ++ s)) (omega arith)
read_hex-loop (suc k) n out s h = elim (Bool-cases (ltb 0 n)) [
  | inl more ↦ rw more (
      read_hex-loop k (n / 16) (get_or hex_digits (n % 16) 0 ∷ out) s (omega arith)
      ∙ read_hex-digit (n % 16) (n / 16) (out ++ s) (omega arith)
      ∙ ap (λ t. read_hex t (out ++ s)) (omega arith))
  | inr done ↦ rw done (ap (λ t. read_hex t (out ++ s)) (ground arith))
]

read_hex-format_hex :
    (n : ℕ) (s : Bytes) → read_hex 0 (format_hex (suc n) ++ (crlf ++ s)) ≡ (suc n, crlf ++ s)
unfolding format_hex
read_hex-format_hex n s =
    let some_left : (suc n == 0) ≡ false = ground arith in
    rw some_left
      (read_hex-loop (suc n) (suc n) [] (crlf ++ s) (omega arith) ∙ (unfold read_hex in refl))

take-append_self : (p s : Bytes) → take (length p) (p ++ s) ≡ p
take-append_self [] s = refl
take-append_self (c ∷ p) s = ap (◌∷◌ c) (take-append_self p s)

drop-append_self : (p s : Bytes) → drop (length p) (p ++ s) ≡ s
drop-append_self [] s = refl
drop-append_self (c ∷ p) s = drop-append_self p s

abbrev pub concat : List Bytes → Bytes
concat [] = []
concat (p ∷ ps) = p ++ concat ps

framed :
    (c : ℕ) (p s : Bytes)
    → write_chunk (c ∷ p) ++ s ≡ format_hex (suc (length p)) ++ (crlf ++ ((c ∷ p) ++ (crlf ++ s)))
unfolding write_chunk
framed c p s = simp append_assoc

-- one chunk of data, then the chunks that follow
read_chunk :
    (k c : ℕ) (p s d rest : Bytes)
    → read_chunks k s ≡ some (d, rest)
    → read_chunks (suc k) (write_chunk (c ∷ p) ++ s) ≡ some ((c ∷ p) ++ d, rest)
unfolding read_chunks read_crlf
read_chunk k c p s d rest e =
    let size = length-append (c ∷ p) (crlf ++ s) in
    let some_left : (suc (length p) == 0) ≡ false = ground arith in
    let fits : leb (suc (length p)) (length ((c ∷ p) ++ (crlf ++ s))) ≡ true = ground arith in
    rw
      (
        framed c p s,
        read_hex-format_hex (length p) ((c ∷ p) ++ (crlf ++ s)),
        fits,
        some_left,
        drop-append_self (c ∷ p) (crlf ++ s),
        e,
        take-append_self p (crlf ++ s),
      )
      refl

write_chunk-nil : write_chunk [] ≡ []
unfolding write_chunk
write_chunk-nil = refl

-- Any sequence of writes and Close, read back as a chunked body with fuel for one round more than
-- there were writes, gives the written bytes and leaves what follows.
pub read_chunks-write_all :
    (ps : List Bytes) (k : ℕ) (rest : Bytes)
    → length ps < k
    → read_chunks k (write_all ps ++ rest) ≡ some (concat ps, rest)
unfolding write_all
read_chunks-write_all [] (suc k) rest h = unfold read_chunks read_crlf read_hex in refl
read_chunks-write_all ([] ∷ ps) k rest h =
    rw write_chunk-nil (read_chunks-write_all ps k rest (omega arith))
read_chunks-write_all ((c ∷ p) ∷ ps) (suc k) rest h =
    rw (append_assoc (write_chunk (c ∷ p)) (write_all ps) rest) (
      read_chunk k c p (write_all ps ++ rest) (concat ps) rest
        (read_chunks-write_all ps k rest (omega arith)))
read_chunks-write_all ps zero rest h = elim h [ ]
