-- ===== src/Task/Counter.antt =====
-- formatCounter of internal/task/assignment.go writes a counter in base 36, and can be read back.
use langley.Prelude.{
  every_below, every_below_sound, ℕ, zero, suc, ◌+◌, ◌-◌, ◌*◌, ◌/◌, ◌%◌, ◌≤◌, ◌<◌, ◌≡◌, ◌∙◌, refl,
  sym, ap, true, false, [], ◌∷◌, ◌++◌, arith, ltb, ◌==◌, ==_iff, if◌then◌else◌, get_or, Bytes,
  codes, Bool-cases, inl, inr,
}
use langley.Task.{digits, digits_loop, format_counter, generate_task_id, simplify_host}

-- the number that a digit stands for, and a text of digits
abbrev pub digit_value : ℕ → ℕ
digit_value c = if ltb c b'a' then c - b'0' else c - b'a' + 10

unfoldable pub parse_counter : ℕ → Bytes → ℕ
parse_counter acc [] = acc
parse_counter acc (c ∷ s) = parse_counter (acc * 36 + digit_value c) s

digit_table : every_below (λ x. digit_value (get_or digits x 0) == x) 36 ≡ true
unfolding every_below
digit_table = refl

digit_value-digits : (x : ℕ) → x < 36 → digit_value (get_or digits x 0) ≡ x
digit_value-digits x h = (==_iff _ x).0 (every_below_sound _ 36 x h digit_table)

dash_table : every_below (λ x. if get_or digits x 0 == b'-' then false else true) 36 ≡ true
unfolding every_below
dash_table = refl

digits-ne-dash : (x : ℕ) → x < 36 → (get_or digits x 0 == b'-') ≡ false
digits-ne-dash x h = ground (arith, every_below_sound _ 36 x h dash_table)

parse-digits_loop :
    (k n : ℕ) (out : Bytes) → n ≤ k → parse_counter 0 (digits_loop k n out) ≡ parse_counter n out
unfolding digits_loop
parse-digits_loop zero n out h = ap (λ t. parse_counter t out) (omega arith)
parse-digits_loop (suc k) n out h = elim (Bool-cases (ltb 0 n)) [
  | inl more ↦
      let pos : 0 < n = ground arith in
      let value : n / 36 * 36 + digit_value (get_or digits (n % 36) 0) ≡ n =
        omega (arith, digit_value-digits (n % 36) (omega arith)) in
      rw more (
        parse-digits_loop k (n / 36) (get_or digits (n % 36) 0 ∷ out) (omega arith)
        ∙ unfold parse_counter in ap (λ t. parse_counter t out) value)
  | inr done ↦ rw done (ap (λ t. parse_counter t out) (ground arith))
]

-- The text of a counter, read in base 36, is the counter.
pub parse-format_counter : (n : ℕ) → parse_counter 0 (format_counter n) ≡ n
unfolding format_counter
parse-format_counter n = elim (Bool-cases (n == 0)) [
  | inl none_left ↦ rw none_left (unfold parse_counter in ground arith)
  | inr some_left ↦
      rw some_left (parse-digits_loop n n [] (omega arith) ∙ (unfold parse_counter in refl))
]

abbrev NoDash : Bytes → Type 0
NoDash [] = Unit {0}
NoDash (c ∷ s) = ((c == b'-') ≡ false) × NoDash s

digits_loop-NoDash : (k n : ℕ) (out : Bytes) → NoDash out → NoDash (digits_loop k n out)
unfolding digits_loop
digits_loop-NoDash zero n out h = h
digits_loop-NoDash (suc k) n out h = elim (Bool-cases (ltb 0 n)) [
  | inl more ↦ rw more (
      digits_loop-NoDash k (n / 36) (get_or digits (n % 36) 0 ∷ out)
        (digits-ne-dash (n % 36) (omega arith), h))
  | inr done ↦ rw done h
]

format_counter-NoDash : (n : ℕ) → NoDash (format_counter n)
unfolding format_counter
format_counter-NoDash n = elim (Bool-cases (n == 0)) [
  | inl none_left ↦ rw none_left (refl, tt)
  | inr some_left ↦ rw some_left (digits_loop-NoDash n n [] tt)
]

-- what stands behind the last dash; all of a text without one
after_dash : Bytes → Bytes → Bytes
after_dash best [] = best
after_dash best (c ∷ s) = after_dash (if c == b'-' then s else best) s

after_dash-NoDash : (s best : Bytes) → NoDash s → after_dash best s ≡ best
unfolding after_dash
after_dash-NoDash [] best h = refl
after_dash-NoDash (c ∷ s) best h = rw h.0 (after_dash-NoDash s best h.1)

after_dash-append : (p s best : Bytes) → NoDash s → after_dash best (p ++ codes "-" ++ s) ≡ s
unfolding after_dash
after_dash-append [] s best h = after_dash-NoDash s s h
after_dash-append (c ∷ p) s best h = after_dash-append p s _ h

-- Two generated task ids are equal only if their counters are, whatever the hosts.
pub generate_task_id-injective :
    (h g : Bytes) (m n : ℕ) → generate_task_id h m ≡ generate_task_id g n → m ≡ n
unfolding generate_task_id
generate_task_id-injective h g m n e =
    let same : format_counter m ≡ format_counter n =
      sym (after_dash-append (simplify_host h) (format_counter m) [] (format_counter-NoDash m))
      ∙ ap (after_dash []) e
      ∙ after_dash-append (simplify_host g) (format_counter n) [] (format_counter-NoDash n) in
    sym (parse-format_counter m) ∙ ap (parse_counter 0) same ∙ parse-format_counter n
