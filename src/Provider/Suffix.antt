-- ===== src/Provider/Suffix.antt =====
-- MatchDomainSuffix of internal/provider/match.go against what it promises: the domain itself or
-- a subdomain of it, whatever the case of the letters and with or without a port.
use langley.Prelude.{
  ℕ, zero, suc, ◌-◌, ◌≡◌, ◌↔◌, ◌⊎◌, inl, inr, ◌∙◌, refl, sym, ap, true, [], ◌∷◌, ◌++◌, Bytes, beq,
  beq_iff, beq_sound, beq_refl, arith, leb, if◌then◌else◌, length, length-append, take, drop,
  Bool-cases,
}
use langley.Go.Strings.{has_suffix, to_lower, cut_last}
use langley.Provider.{match_domain_suffix}

take-append-drop : (n : ℕ) (s : Bytes) → take n s ++ drop n s ≡ s
take-append-drop zero s = refl
take-append-drop (suc n) [] = refl
take-append-drop (suc n) (c ∷ s) = ap (◌∷◌ c) (take-append-drop n s)

drop-append_self : (p s : Bytes) → drop (length p) (p ++ s) ≡ s
drop-append_self [] s = refl
drop-append_self (c ∷ p) s = drop-append_self p s

has_suffix_sound : (s p : Bytes) → has_suffix s p ≡ true → (q : Bytes) × (s ≡ q ++ p)
unfolding has_suffix
has_suffix_sound s p h =
    let n = length s - length p in
    let same : drop n s ≡ p = beq_sound (drop n s) p (ground arith) in
    (take n s, sym (take-append-drop n s) ∙ ap (λ t. take n s ++ t) same)

has_suffix-append : (q p : Bytes) → has_suffix (q ++ p) p ≡ true
unfolding has_suffix
has_suffix-append q p =
    let size = length-append q p in
    let fits : leb (length p) (length (q ++ p)) ≡ true = ground (arith, size) in
    let cut : length (q ++ p) - length p ≡ length q = omega (arith, size) in
    rw (fits, cut, drop-append_self q p) (beq_refl p)

-- MatchDomainSuffix holds exactly for the domain itself and for its subdomains, as lower-case
-- texts and once the host's port is cut: some text, a dot, and the domain.
pub match_domain_suffix_iff :
    (host suffix : Bytes)
    → (match_domain_suffix host suffix ≡ true) ↔ (
        (to_lower (cut_last b':' host) ≡ to_lower suffix)
        ⊎ ((q : Bytes) × (to_lower (cut_last b':' host) ≡ q ++ b'.' ∷ to_lower suffix)))
unfolding match_domain_suffix
match_domain_suffix_iff host suffix = (sound, complete)
  where
    h : Bytes
    h = to_lower (cut_last b':' host)

    s : Bytes
    s = to_lower suffix

    sound :
        (if beq h s then true else has_suffix h (b'.' ∷ s)) ≡ true
        → (h ≡ s) ⊎ ((q : Bytes) × (h ≡ q ++ b'.' ∷ s))
    sound e = elim (Bool-cases (beq h s)) [
      | inl same ↦ inl (beq_sound h s same)
      | inr differ ↦ inr (has_suffix_sound h (b'.' ∷ s) (ground arith))
    ]

    complete :
        (h ≡ s) ⊎ ((q : Bytes) × (h ≡ q ++ b'.' ∷ s))
        → (if beq h s then true else has_suffix h (b'.' ∷ s)) ≡ true
    complete (inl same) = ground (arith, beq_iff h s)
    complete (inr (q, e)) =
        let ends : has_suffix h (b'.' ∷ s) ≡ true = rw e (has_suffix-append q (b'.' ∷ s)) in
        ground arith
