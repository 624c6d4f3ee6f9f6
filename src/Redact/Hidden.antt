-- ===== src/Redact/Hidden.antt =====
-- The headers that internal/redact/redact.go keeps out of what is stored.
use langley.Prelude.{
  ◌≡◌, refl, ap, Bool, true, false, List, [], ◌∷◌, Bytes, codes, if◌then◌else◌, sym, ◌∙◌, ◌↔◌, beq,
  beq_sound, beq_iff, Bool-cases, inl, inr, ◌⊎◌, arith,
}
use mathlib.Core.Bool.{true≢false}
use mathlib.Core.List.{Memᴰ}
use langley.Go.Strings.{to_lower, has_prefix, has_suffix, trim, trim_suffix}
use langley.Config.{is_listed, matches_simple, matches_any, header_should_redact}
use langley.Redact.{
  Redactor, Header, redacted_value, any_matches, should_redact_header, redact_headers,
}

-- an entry of the always-redact list is the name, in whatever casing of the two
abbrev pub IsListed : Bytes → List Bytes → Type 0
IsListed name entries = (e : Bytes) × (Memᴰ e entries × (to_lower e ≡ to_lower name))

-- a pattern of the configuration that is read as a prefix from "x-" on with an ending, which the name
-- has both
abbrev pub FitsSimple : Bytes → Bytes → Bytes → Type 0
FitsSimple name pattern ending =
    let simple = trim (codes "^$") (to_lower pattern) in
    (has_prefix simple (codes "x-") ≡ true)
    × ((has_suffix simple ending ≡ true)
        × ((has_prefix (to_lower name) (trim_suffix simple ending) ≡ true)
            × (has_suffix (to_lower name) ending ≡ true)))

-- why a header is redacted
pub data IsSecret (r : Redactor) (name : Bytes) : Type 0 where
  by_list : IsListed name r.cfg.always_redact_headers → IsSecret r name
  by_regexp : (p : Bytes → Bool) → Memᴰ p r.header_patterns → p name ≡ true → IsSecret r name
  by_pattern :
      (p : Bytes)
      → Memᴰ p r.cfg.pattern_redact_headers
      → FitsSimple name p (codes "-token") ⊎ FitsSimple name p (codes "-key")
      → IsSecret r name

-- names with, for each, the redacted value if it is secret, or else its own values
abbrev pub Redacts : Redactor → Header → Header → Type 0
Redacts r [] [] = Unit {0}
Redacts r ((name, values) ∷ h) ((other, left) ∷ g) =
    ((other ≡ name)
      × ((IsSecret r name × (left ≡ redacted_value ∷ []))
          ⊎ ((¬ IsSecret r name) × (left ≡ values))))
    × Redacts r h g
Redacts r h g = ⊥

-- a later test of a chain
later_test : (b : Bool) {c : Bool} → c ≡ true → (if b then true else c) ≡ true
later_test true h = refl
later_test false h = h

is_listed_iff :
    (name : Bytes) (entries : List Bytes)
    → (is_listed (to_lower name) entries ≡ true) ↔ IsListed name entries
unfolding is_listed
is_listed_iff name [] = (λ h. cc h, λ l. elim l.1.0 [ ])
is_listed_iff name (e ∷ entries) =
    let rest = is_listed_iff name entries in
    (
      λ h. elim (Bool-cases (beq (to_lower e) (to_lower name))) [
        | inl same ↦ (e, (Memᴰ.head refl, beq_sound (to_lower e) (to_lower name) same))
        | inr other ↦
            let later = rest.0 (rw other at h) in (later.0, (Memᴰ.tail later.1.0, later.1.1))
      ],
      λ l. found l.0 l.1.0 l.1.1 rest.1,
    )
  where
    found :
        (f : Bytes)
        → Memᴰ f (e ∷ entries)
        → to_lower f ≡ to_lower name
        → (IsListed name entries → is_listed (to_lower name) entries ≡ true)
        → (if beq (to_lower e) (to_lower name) then true else is_listed (to_lower name) entries)
          ≡ true
    found f (Memᴰ.head same) q rest =
        let here : beq (to_lower e) (to_lower name) ≡ true =
          (beq_iff (to_lower e) (to_lower name)).1 (ap to_lower (sym same) ∙ q) in
        rw here refl
    found f (Memᴰ.tail m) q rest = later_test (beq (to_lower e) (to_lower name)) (rest (f, (m, q)))

any_matches_iff :
    (ps : List (Bytes → Bool)) (name : Bytes)
    → (any_matches ps name ≡ true) ↔ ((p : Bytes → Bool) × (Memᴰ p ps × (p name ≡ true)))
unfolding any_matches
any_matches_iff [] name = (λ h. cc h, λ l. elim l.1.0 [ ])
any_matches_iff (p ∷ ps) name =
    let rest = any_matches_iff ps name in
    (
      λ h. elim (Bool-cases (p name)) [
        | inl here ↦ (p, (Memᴰ.head refl, here))
        | inr other ↦
            let later = rest.0 (rw other at h) in (later.0, (Memᴰ.tail later.1.0, later.1.1))
      ],
      λ l. found l.0 l.1.0 l.1.1 rest.1,
    )
  where
    found :
        (q : Bytes → Bool)
        → Memᴰ q (p ∷ ps)
        → q name ≡ true
        → (((r : Bytes → Bool) × (Memᴰ r ps × (r name ≡ true))) → any_matches ps name ≡ true)
        → (if p name then true else any_matches ps name) ≡ true
    found q (Memᴰ.head same) h rest =
        let here : p name ≡ true = ap (λ f. f name) (sym same) ∙ h in rw here refl
    found q (Memᴰ.tail m) h rest = later_test (p name) (rest (q, (m, h)))

-- the tests of one ending
abbrev matches : Bytes → Bytes → Bytes → Bool
matches name p ending = matches_simple (to_lower name) (trim (codes "^$") (to_lower p)) ending

matches_simple_iff :
    (name p ending : Bytes) → (matches name p ending ≡ true) ↔ FitsSimple name p ending
unfolding matches_simple
matches_simple_iff name p ending = (ground arith, ground arith)

-- a pattern of the list fits, with either ending
abbrev FitsAny : Bytes → List Bytes → Type 0
FitsAny name ps =
    (p : Bytes) × (Memᴰ p ps
      × (FitsSimple name p (codes "-token") ⊎ FitsSimple name p (codes "-key")))

matches_any_iff :
    (name : Bytes) (ps : List Bytes) → (matches_any (to_lower name) ps ≡ true) ↔ FitsAny name ps
unfolding matches_any
matches_any_iff name [] = (λ h. cc h, λ l. elim l.1.0 [ ])
matches_any_iff name (p ∷ ps) =
    let rest = matches_any_iff name ps in
    (
      λ h. elim (Bool-cases (matches name p (codes "-token"))) [
        | inl e ↦ (p, (Memᴰ.head refl, inl ((matches_simple_iff name p (codes "-token")).0 e)))
        | inr n ↦ elim (Bool-cases (matches name p (codes "-key"))) [
          | inl e ↦ (p, (Memᴰ.head refl, inr ((matches_simple_iff name p (codes "-key")).0 e)))
          | inr m ↦
              let later = rest.0 (rw (n, m) at h) in (later.0, (Memᴰ.tail later.1.0, later.1.1))
        ]
      ],
      λ l. found l.0 l.1.0 l.1.1 rest.1,
    )
  where
    found :
        (q : Bytes)
        → Memᴰ q (p ∷ ps)
        → FitsSimple name q (codes "-token") ⊎ FitsSimple name q (codes "-key")
        → (FitsAny name ps → matches_any (to_lower name) ps ≡ true)
        → (if matches name p (codes "-token")
            then true
            else if matches name p (codes "-key")
            then true
            else matches_any (to_lower name) ps)
          ≡ true
    found q (Memᴰ.head same) (inl f) rest =
        let here : matches name p (codes "-token") ≡ true =
          ap (λ x. matches name x (codes "-token")) (sym same)
          ∙ (matches_simple_iff name q (codes "-token")).1 f in
        rw here refl
    found q (Memᴰ.head same) (inr f) rest =
        let here : matches name p (codes "-key") ≡ true =
          ap (λ x. matches name x (codes "-key")) (sym same)
          ∙ (matches_simple_iff name q (codes "-key")).1 f in
        later_test (matches name p (codes "-token")) (rw here refl)
    found q (Memᴰ.tail m) f rest =
        later_test (matches name p (codes "-token"))
          (later_test (matches name p (codes "-key")) (rest (q, (m, f))))

should_redact_header_iff :
    (r : Redactor) (name : Bytes) → (should_redact_header r name ≡ true) ↔ IsSecret r name
unfolding should_redact_header header_should_redact
should_redact_header_iff r name = (λ h. secret h, tests)
  where
    secret : should_redact_header r name ≡ true → IsSecret r name
    secret h = elim (Bool-cases (is_listed (to_lower name) r.cfg.always_redact_headers)) [
      | inl e ↦ by_list ((is_listed_iff name r.cfg.always_redact_headers).0 e)
      | inr n ↦ elim (Bool-cases (any_matches r.header_patterns name)) [
        | inl e ↦
            let found = (any_matches_iff r.header_patterns name).0 e in
            by_regexp found.0 found.1.0 found.1.1
        | inr m ↦
            let found = (matches_any_iff name r.cfg.pattern_redact_headers).0 (rw (n, m) at h) in
            by_pattern found.0 found.1.0 found.1.1
      ]
    ]

    tests : IsSecret r name → should_redact_header r name ≡ true
    tests (by_list l) = rw ((is_listed_iff name r.cfg.always_redact_headers).1 l) refl
    tests (by_regexp p m e) =
        later_test (is_listed (to_lower name) r.cfg.always_redact_headers)
          (rw ((any_matches_iff r.header_patterns name).1 (p, (m, e))) refl)
    tests (by_pattern p m f) =
        let listed = is_listed (to_lower name) r.cfg.always_redact_headers in
        later_test listed (
          later_test (any_matches r.header_patterns name)
            (later_test listed ((matches_any_iff name r.cfg.pattern_redact_headers).1 (p, (m, f)))))

-- RedactHeaders keeps the names of all headers. A header gets "[REDACTED]" as its only value exactly if
-- its name is on the always-redact list, in whatever casing of the two, or one of the compiled patterns
-- matches it, or it has the prefix and the ending of a pattern of the configuration; else it keeps its
-- values.
pub redact_headers_lem : (r : Redactor) (h : Header) → Redacts r h (redact_headers r h)
unfolding redact_headers
redact_headers_lem r [] = tt
redact_headers_lem r ((name, values) ∷ h) = (
  (
    refl,
    elim (Bool-cases (should_redact_header r name)) [
      | inl e ↦ inl ((should_redact_header_iff r name).0 e, rw e refl)
      | inr e ↦ inr (λ s. true≢false (sym ((should_redact_header_iff r name).1 s) ∙ e), rw e refl)
    ],
  ),
  redact_headers_lem r h,
)
