-- ===== src/Go/Strings.antt =====
-- What the components use of Go's package strings, on ASCII text.
use langley.Prelude.{
  ℕ, suc, ◌+◌, ◌-◌, Bool, true, false, ◌&&◌, ◌||◌, List, [], ◌∷◌, map, Option, none, some, Bytes,
  leb, ◌==◌, if◌then◌else◌, length, take, drop, beq, codes, zero, ◌*◌, ◌/◌, ◌%◌, ◌^◌, not, ◌++◌,
  ltb,
}

-- strings.LastIndex(s, c) for one byte, counting from `i`; `none` is -1
unfoldable pub last_index_from : ℕ → ℕ → Bytes → Option ℕ
last_index_from i c [] = none
last_index_from i c (x ∷ s) = elim (last_index_from (suc i) c s) [
  | some j ↦ some j
  | none ↦ if x == c then some i else none
]

unfoldable pub last_index : ℕ → Bytes → Option ℕ
unfolding last_index_from
last_index c s = last_index_from 0 c s

unfoldable pub has_prefix : Bytes → Bytes → Bool
has_prefix s [] = true
has_prefix [] (y ∷ p) = false
has_prefix (x ∷ s) (y ∷ p) = x == y && has_prefix s p

unfoldable pub has_suffix : Bytes → Bytes → Bool
unfolding beq
has_suffix s p = leb (length p) (length s) && beq (drop (length s - length p) s) p

unfoldable pub trim_prefix : Bytes → Bytes → Bytes
unfolding has_prefix
trim_prefix s p = if has_prefix s p then drop (length p) s else s

unfoldable pub to_lower_byte : ℕ → ℕ
to_lower_byte c = if leb b'A' c && leb c b'Z' then c + 32 else c

unfoldable pub to_lower : Bytes → Bytes
unfolding to_lower_byte
to_lower = map to_lower_byte

-- the digits of %x
abbrev pub hex_digits : Bytes
hex_digits = codes "0123456789abcdef"

unfoldable pub to_upper_byte : ℕ → ℕ
to_upper_byte c = if leb b'a' c && leb c b'z' then c - 32 else c

unfoldable pub to_upper : Bytes → Bytes
unfolding to_upper_byte
to_upper = map to_upper_byte

abbrev pub is_space : ℕ → Bool
is_space c = c == 32 || leb 9 c && leb c 13

unfoldable pub trim_left : Bytes → Bytes
trim_left [] = []
trim_left (c ∷ s) = if is_space c then trim_left s else c ∷ s

unfoldable pub trim_right : Bytes → Bytes
trim_right [] = []
trim_right (c ∷ s) = elim (trim_right s) [
  | [] ↦ if is_space c then [] else c ∷ []
  | d ∷ r ↦ c ∷ d ∷ r
]

unfoldable pub trim_space : Bytes → Bytes
unfolding trim_left trim_right
trim_space s = trim_right (trim_left s)

-- s[:i] at the last `c`, or all of `s`
unfoldable pub cut_last : ℕ → Bytes → Bytes
unfolding last_index
cut_last c s = elim (last_index c s) [ none ↦ s | some i ↦ take i s ]

-- strings.Split at one byte
unfoldable pub split_on : ℕ → Bytes → List Bytes
split_on c [] = [] ∷ []
split_on c (x ∷ s) = elim (split_on c s) [
  | [] ↦ []
  | part ∷ parts ↦ if x == c then [] ∷ part ∷ parts else (x ∷ part) ∷ parts
]

-- strings.Index(s, p), counting from `i`
unfoldable pub index_from : ℕ → Bytes → Bytes → Option ℕ
unfolding has_prefix
index_from i [] p = if has_prefix [] p then some i else none
index_from i (x ∷ s) p = if has_prefix (x ∷ s) p then some i else index_from (suc i) s p

unfoldable pub index : Bytes → Bytes → Option ℕ
unfolding index_from
index s p = index_from 0 s p

abbrev pub contains : Bytes → Bytes → Bool
contains s p = elim (index s p) [ none ↦ false | some i ↦ true ]

unfoldable pub trim_suffix : Bytes → Bytes → Bytes
unfolding has_suffix
trim_suffix s p = if has_suffix s p then take (length s - length p) s else s

unfoldable pub is_one_of : Bytes → ℕ → Bool
is_one_of [] c = false
is_one_of (d ∷ ds) c = c == d || is_one_of ds c

-- strings.Trim(s, cutset)
unfoldable pub drop_cutset : Bytes → Bytes → Bytes
unfolding is_one_of
drop_cutset cutset [] = []
drop_cutset cutset (c ∷ s) = if is_one_of cutset c then drop_cutset cutset s else c ∷ s

unfoldable pub trim : Bytes → Bytes → Bytes
unfolding drop_cutset
trim cutset s = reverse (drop_cutset cutset (reverse (drop_cutset cutset s)))
  where
    reverse_onto : Bytes → Bytes → Bytes
    reverse_onto acc [] = acc
    reverse_onto acc (c ∷ t) = reverse_onto (c ∷ acc) t

    reverse : Bytes → Bytes
    reverse = reverse_onto []

-- strings.SplitN(s, c, 2) for one byte: the two parts, or none if `c` is not in `s`
unfoldable pub cut : ℕ → Bytes → Option (Bytes × Bytes)
cut c [] = none
cut c (x ∷ s) =
    let rest : Option (Bytes × Bytes) = elim (cut c s) [
      | none ↦ none
      | some p ↦ some (x ∷ p.0, p.1)
    ] in
    if x == c then some ([], s) else rest

-- strings.Join with one byte
unfoldable pub join : ℕ → List Bytes → Bytes
join c [] = []
join c (p ∷ []) = p
join c (p ∷ q ∷ ps) = p ++ c ∷ join c (q ∷ ps)

-- the decimal digits of a number, as strconv.Itoa and fmt's %d print it
unfoldable pub decimal_loop : ℕ → ℕ → Bytes → Bytes
decimal_loop zero n out = out
decimal_loop (suc k) n out =
    let more = decimal_loop k (n / 10) ((48 + n % 10) ∷ out) in if ltb 0 n then more else out

unfoldable pub decimal : ℕ → Bytes
unfolding decimal_loop
decimal n = if n == 0 then 48 ∷ [] else decimal_loop n n []

-- strconv.Atoi of a text: an optional sign and digits, within 64 bits
unfoldable pub digits_value : ℕ → Bytes → Option ℕ
digits_value acc [] = some acc
digits_value acc (c ∷ s) =
    let rest = digits_value (acc * 10 + (c - 48)) s in if leb 48 c && leb c 57 then rest else none

-- the number without its sign, if it has a digit and is at most `bound`
unfoldable pub bounded_value : ℕ → Bytes → Option ℕ
unfolding digits_value
bounded_value bound [] = none
bounded_value bound (c ∷ s) = elim (digits_value 0 (c ∷ s)) [
  | some n ↦ if leb n bound then some n else none
  | none ↦ none
]

-- whether the number is negative, and the number without its sign
unfoldable pub atoi : Bytes → Option (Bool × ℕ)
unfolding bounded_value
atoi [] = none
atoi (c ∷ s) =
    if c == b'-'
    then elim (bounded_value (2 ^ 63) s) [ some n ↦ some (not (n == 0), n) | none ↦ none ]
    else elim (bounded_value (2 ^ 63 - 1) (if c == b'+' then s else c ∷ s)) [
      | some n ↦ some (false, n)
      | none ↦ none
    ]
