-- ===== src/Redact/Keys.antt =====
-- What internal/redact/redact.go leaves of an API key.
use langley.Prelude.{
  ℕ, ◌≡◌, refl, Bool, true, false, List, [], ◌∷◌, ◌++◌, Option, none, some, Bytes, codes,
  if◌then◌else◌, inl, inr, ◌⊎◌,
}
use mathlib.Core.List.{Memᴰ}
use langley.Go.Strings.{to_lower, has_prefix, cut}
use langley.Go.Cut.{Without, IsCut, cut-IsCut}
use langley.Redact.{redacted_value, redact_api_key}

-- the texts that a redacted key may begin with, whatever the key is
abbrev pub known_prefixes : List Bytes
known_prefixes =
    [] ∷ codes "sk-ant-" ∷ codes "sk-" ∷ codes "AKIA" ∷ codes "AIza" ∷ codes "key-" ∷ []

-- `left` is "[REDACTED]" after a known prefix, or after the text up to the first `=` or `:`
abbrev pub Hides : Bytes → Bytes → Type 0
Hides found left =
    ((q : Bytes) × (Memᴰ q known_prefixes × (left ≡ q ++ redacted_value)))
    ⊎ ((c : ℕ) × (((c ≡ b'=') ⊎ (c ≡ b':'))
          × ((p : Bytes) × ((rest : Bytes) × ((found ≡ p ++ c ∷ rest)
                  × (Without c p × (left ≡ p ++ c ∷ redacted_value)))))))

-- Of a match of the API key pattern what is stored shows no more than one of the known prefixes,
-- or the text up to and with its first `=`, or else its first `:`; the rest is "[REDACTED]".
pub redact_api_key-Hides : (found : Bytes) → Hides found (redact_api_key found)
unfolding redact_api_key
redact_api_key-Hides found =
    chain (has_prefix (to_lower found) (codes "sk-ant-")) (known (Memᴰ.tail (Memᴰ.head refl))) (
      chain (has_prefix (to_lower found) (codes "sk-"))
        (known (Memᴰ.tail (Memᴰ.tail (Memᴰ.head refl))))
        (chain (has_prefix found (codes "AKIA"))
          (known (Memᴰ.tail (Memᴰ.tail (Memᴰ.tail (Memᴰ.head refl)))))
          (chain (has_prefix found (codes "AIza"))
            (known (Memᴰ.tail (Memᴰ.tail (Memᴰ.tail (Memᴰ.tail (Memᴰ.head refl))))))
            (chain (has_prefix (to_lower found) (codes "key-"))
              (known (Memᴰ.tail (Memᴰ.tail (Memᴰ.tail (Memᴰ.tail (Memᴰ.tail (Memᴰ.head refl)))))))
              (by_equals (cut b'=' found) (cut-IsCut b'=' found))))))
  where
    known : {q : Bytes} → Memᴰ q known_prefixes → Hides found (q ++ redacted_value)
    known m = inl (_, (m, refl))

    chain :
        {x y : Bytes} (b : Bool) → Hides found x → Hides found y → Hides found (if b then x else y)
    chain true h k = h
    chain false h k = k

    by_colon :
        (o : Option (Bytes × Bytes))
        → IsCut b':' found o
        → Hides found (elim o [ some p ↦ p.0 ++ b':' ∷ redacted_value | none ↦ redacted_value ])
    by_colon none h = inl ([], (Memᴰ.head refl, refl))
    by_colon (some p) h = inr (b':', (inr refl, (p.0, (p.1, (h.0, (h.1, refl))))))

    by_equals :
        (o : Option (Bytes × Bytes))
        → IsCut b'=' found o
        → Hides found (elim o [
          | some p ↦ p.0 ++ b'=' ∷ redacted_value
          | none ↦ elim (cut b':' found) [
            | some p ↦ p.0 ++ b':' ∷ redacted_value
            | none ↦ redacted_value
          ]
        ])
    by_equals none h = by_colon (cut b':' found) (cut-IsCut b':' found)
    by_equals (some p) h = inr (b'=', (inl refl, (p.0, (p.1, (h.0, (h.1, refl))))))
