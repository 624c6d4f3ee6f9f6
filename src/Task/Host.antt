-- ===== src/Task/Host.antt =====
-- simplifyHost and splitDomain of internal/task/assignment.go.
use langley.Prelude.{
  ◌-◌, ◌≡◌, ◌≢◌, refl, false, List, [], ◌∷◌, ◌++◌, ltb, ◌==◌, if◌then◌else◌, length, Bytes,
  Bool-cases, inl, inr,
}
use mathlib.Core.List.{append-nil, append_assoc}
use langley.Go.Strings.{cut_last}
use langley.Task.{flush, split_loop, split_domain, pick_part, simplify_host}

abbrev pub NoDot : Bytes → Type 0
NoDot [] = Unit {0}
NoDot (c ∷ s) = ((c == b'.') ≡ false) × NoDot s

-- a part of a domain: some bytes, none of them a dot
abbrev pub IsLabel : Bytes → Type 0
IsLabel s = (s ≢ []) × NoDot s

abbrev pub AllLabels : List Bytes → Type 0
AllLabels [] = Unit {0}
AllLabels (p ∷ parts) = IsLabel p × AllLabels parts

abbrev pub joined : List Bytes → Bytes
joined [] = []
joined (p ∷ parts) = p ++ joined parts

abbrev pub without_dots : Bytes → Bytes
without_dots [] = []
without_dots (c ∷ s) = if c == b'.' then without_dots s else c ∷ without_dots s

NoDot-append : (s t : Bytes) → NoDot s → NoDot t → NoDot (s ++ t)
NoDot-append [] t h k = k
NoDot-append (c ∷ s) t h k = (h.0, NoDot-append s t h.1 k)

AllLabels-append : (ps qs : List Bytes) → AllLabels ps → AllLabels qs → AllLabels (ps ++ qs)
AllLabels-append [] qs h k = k
AllLabels-append (p ∷ ps) qs h k = (h.0, AllLabels-append ps qs h.1 k)

flush-AllLabels :
    (ps : List Bytes) (seg : Bytes) → AllLabels ps → NoDot seg → AllLabels (flush ps seg)
flush-AllLabels ps [] h k = h
flush-AllLabels ps (c ∷ seg) h k = AllLabels-append ps _ h (((λ e. cc e), k), tt)

joined-append : (ps qs : List Bytes) → joined (ps ++ qs) ≡ joined ps ++ joined qs
joined-append [] qs = refl
joined-append (p ∷ ps) qs = simp (joined-append ps qs, append_assoc)

joined-flush : (ps : List Bytes) (seg : Bytes) → joined (flush ps seg) ≡ joined ps ++ seg
joined-flush ps [] = simp append-nil
joined-flush ps (c ∷ seg) = simp (joined-append, append-nil)

split_loop_lem :
    (host : Bytes) (ps : List Bytes) (seg : Bytes)
    → AllLabels ps
    → NoDot seg
    → AllLabels (split_loop ps seg host)
      × (joined (split_loop ps seg host) ≡ (joined ps ++ seg) ++ without_dots host)
unfolding split_loop
split_loop_lem [] ps seg h k = (flush-AllLabels ps seg h k, simp (joined-flush, append-nil))
split_loop_lem (c ∷ host) ps seg h k = elim (Bool-cases (c == b'.')) [
  | inl dot ↦
      let (all, same) = split_loop_lem host (flush ps seg) [] (flush-AllLabels ps seg h k) tt in
      rw dot (all, simp (same, joined-flush, append-nil))
  | inr other ↦
      let (all, same) =
        split_loop_lem host ps (seg ++ c ∷ []) h (NoDot-append seg (c ∷ []) k (other, tt)) in
      rw other (all, simp (same, append_assoc))
]

-- splitDomain cuts a host at its dots: no part is empty, none has a dot in it, and the parts in
-- order are the host without its dots.
pub split_domain_labels :
    (host : Bytes)
    → AllLabels (split_domain host) × (joined (split_domain host) ≡ without_dots host)
unfolding split_domain
split_domain_labels host = split_loop_lem host [] [] tt tt

pick_part-IsLabel : (parts : List Bytes) → AllLabels parts → IsLabel (pick_part parts)
unfolding pick_part
pick_part-IsLabel [] h = ((λ e. cc e), (refl, (refl, (refl, (refl, (refl, (refl, (refl, tt))))))))
pick_part-IsLabel (p ∷ []) h = h.0
pick_part-IsLabel (p ∷ q ∷ []) h = h.0
pick_part-IsLabel (p ∷ q ∷ r ∷ parts) h = pick_part-IsLabel (q ∷ r ∷ parts) h.1

-- The prefix of a task id is never empty and has no dot in it.
pub simplify_host-IsLabel : (host : Bytes) → IsLabel (simplify_host host)
unfolding simplify_host
simplify_host-IsLabel host =
    pick_part-IsLabel _
      (split_domain_labels (if ltb 0 (length host - 1) then cut_last b':' host else host)).0
