-- ===== src/Api/Export/Pages.antt =====
-- exportFlows of internal/api/api.go against its specification: the flows of the store, up to the
-- limit, each once and in order.
use mathlib.Core.List.{append-nil, append_assoc, map-append}
use langley.Prelude.{
  ℕ, zero, suc, ◌+◌, ◌-◌, ◌<◌, ◌≡◌, refl, sym, ap, ◌∙◌, Bool, true, false, ◌&&◌, List, [], ◌∷◌,
  ◌++◌, map, Option, some, Bytes, ltb, leb, ◌==◌, if◌then◌else◌, length, length-append, take, drop,
  Bool-cases, inl, inr, arith,
}
use mathlib.Core.Path.{subst}
use langley.Store.{Flow, FlowFilter}
use langley.Api.Export.{ExportFormat, ndjson, json, csv, ExportConfig, Row, row_of}
use langley.Api.Export.Rows.{
  Progress, at_limit, cannot_write, with_row, write_page, export_pages, nothing_written,
}

-- what the limit leaves of some flows after `count` rows
abbrev pub within : ℕ → ℕ → List Flow → List Flow
within max count fs = if max == 0 then fs else take (max - count) fs

abbrev none_of {ℓ} : (A : Type ℓ) → List A
none_of A = []

take-drop : (n : ℕ) (fs : List Flow) → take n fs ++ drop n fs ≡ fs
take-drop zero fs = refl
take-drop (suc n) [] = refl
take-drop (suc n) (f ∷ fs) = ap (◌∷◌ f) (take-drop n fs)

drop-nil : (n : ℕ) → drop n (none_of Flow) ≡ []
drop-nil zero = refl
drop-nil (suc n) = refl

take-nil : (n : ℕ) → take n (none_of Flow) ≡ []
take-nil zero = refl
take-nil (suc n) = refl

drop-drop : (m n : ℕ) (fs : List Flow) → drop n (drop m fs) ≡ drop (m + n) fs
drop-drop zero n fs = ap (λ k. drop k fs) (omega arith)
drop-drop (suc m) n [] = drop-nil n ∙ sym (drop-nil (suc m + n))
drop-drop (suc m) n (f ∷ fs) = drop-drop m n fs ∙ suc_first
  where
    suc_first : drop (m + n) fs ≡ drop (suc m + n) (f ∷ fs)
    suc_first = let e : suc (m + n) ≡ suc m + n = omega arith in ap (λ k. drop k (f ∷ fs)) e

-- dropping a page drops as many flows as the page may have
drop-length-take : (n : ℕ) (fs : List Flow) → drop (length (take n fs)) fs ≡ drop n fs
drop-length-take zero fs = refl
drop-length-take (suc n) [] = refl
drop-length-take (suc n) (f ∷ fs) = drop-length-take n fs

take-append_rest :
    (n : ℕ) (fs gs : List Flow) → take n (fs ++ gs) ≡ take n fs ++ take (n - length (take n fs)) gs
take-append_rest zero fs gs = refl
take-append_rest (suc n) [] gs = let e : suc n ≡ suc n - 0 = omega arith in ap (λ k. take k gs) e
take-append_rest (suc n) (f ∷ fs) gs =
    let shift : n - length (take n fs) ≡ suc n - suc (length (take n fs)) = omega arith in
    ap (◌∷◌ f) (take-append_rest n fs gs ∙ ap (λ k. take n fs ++ take k gs) shift)

within-append :
    (max count : ℕ) (fs gs : List Flow)
    → within max count (fs ++ gs)
      ≡ within max count fs ++ within max (count + length (within max count fs)) gs
within-append max count fs gs = elim (Bool-cases (max == 0)) [
  | inl e ↦ rw e refl
  | inr e ↦
      let shift : max - count - length (take (max - count) fs)
          ≡ max - (count + length (take (max - count) fs)) =
        omega arith in
      rw e
        (take-append_rest (max - count) fs gs ∙ ap (λ k. take (max - count) fs ++ take k gs) shift)
]

within-nil : (max count : ℕ) → within max count [] ≡ []
within-nil max count = elim (Bool-cases (max == 0)) [
  | inl e ↦ rw e refl
  | inr e ↦ rw e (take-nil (max - count))
]

if_false : (b : Bool) (x y : Option Progress) → b ≡ false → (if b then x else y) ≡ y
if_false true x y e = cc e
if_false false x y e = refl

within-full :
    (max count : ℕ) (fs : List Flow)
    → (ltb 0 max && leb max count) ≡ true
    → within max count fs ≡ []
within-full max count fs e = elim (Bool-cases (max == 0)) [
  | inl z ↦ absurd (ground arith)
  | inr z ↦ let none_left : max - count ≡ 0 = ground arith in rw (z, none_left) refl
]

within-cons :
    (max count : ℕ) (f : Flow) (fs : List Flow)
    → (ltb 0 max && leb max count) ≡ false
    → within max count (f ∷ fs) ≡ f ∷ within max (count + 1) fs
within-cons max count f fs e = elim (Bool-cases (max == 0)) [
  | inl z ↦ rw z refl
  | inr z ↦
      let one_left : max - count ≡ suc (max - (count + 1)) = ground arith in rw (z, one_left) refl
]

module _ (format_time format_cost : ℕ → Bytes) (fails : Row → Bool) (cfg : ExportConfig) where
  -- the rows of some flows have been written after what had been written before
  pub record Wrote (st : Progress) (fs : List Flow) (after : Progress) : Type 0 where
    pub rows_eq : after.rows ≡ st.rows ++ map (row_of format_time format_cost cfg) fs
    pub count_eq : after.row_count ≡ st.row_count + length fs
    pub failed_eq : after.failed ≡ false

  Wrote-trans :
      (st mid after : Progress) (fs gs : List Flow)
      → Wrote st fs mid
      → Wrote mid gs after
      → Wrote st (fs ++ gs) after
  Wrote-trans st mid after fs gs v w = record {
    rows_eq =
        w.rows_eq
        ∙ ap (λ r. r ++ map (row_of format_time format_cost cfg) gs) v.rows_eq
        ∙ append_assoc st.rows _ _
        ∙ ap (λ r. st.rows ++ r) (sym (map-append (row_of format_time format_cost cfg) fs gs));
    count_eq = omega (arith, v.count_eq, w.count_eq, length-append fs gs);
    failed_eq = w.failed_eq;
  }

  cannot_write-false :
      (format : ExportFormat) (row : Row)
      → fails row ≡ false
      → cannot_write fails format row ≡ false
  cannot_write-false ndjson row h = h
  cannot_write-false json row h = refl
  cannot_write-false csv row h = h

  write_page-Wrote :
      (st : Progress) (fs : List Flow)
      → ((row : Row) → fails row ≡ false)
      → st.failed ≡ false
      → Wrote st
          (within cfg.max_rows st.row_count fs)
          (write_page format_time format_cost fails cfg st fs)
  unfolding write_page
  write_page-Wrote st [] h e =
      rw (within-nil cfg.max_rows st.row_count)
        (record { rows_eq = sym (append-nil st.rows); count_eq = omega arith; failed_eq = e })
  write_page-Wrote st (f ∷ fs) h e =
      let rest = write_page-Wrote (with_row format_time format_cost fails cfg st f) fs h e in
      elim (Bool-cases (at_limit cfg st.row_count)) [
        | inl full ↦
            rw (full, within-full cfg.max_rows st.row_count (f ∷ fs) full)
              (record { rows_eq = sym (append-nil st.rows); count_eq = omega arith; failed_eq = e })
        | inr more ↦
            rw
              (
                more,
                within-cons cfg.max_rows st.row_count f fs more,
                cannot_write-false cfg.format (row_of format_time format_cost cfg f) (h _),
              )
              (Wrote-trans st (with_row format_time format_cost fails cfg st f) _ (f ∷ []) _
                (record { rows_eq = refl; count_eq = refl; failed_eq = e }) rest)
      ]

  -- the store gives the pages of `all` for a filter
  abbrev pub PagesOf : (FlowFilter → Option (List Flow)) → FlowFilter → List Flow → Type 0
  PagesOf store filter all =
      (offset : ℕ)
      → store (record filter { offset = offset }) ≡ some (take filter.limit (drop offset all))

  -- the pages from an offset on have been written
  abbrev pub Done : Progress → ℕ → List Flow → Option Progress → Type 0
  Done st offset all o =
      (after : Progress) × ((o ≡ some after)
        × Wrote st (within cfg.max_rows st.row_count (drop offset all)) after)

  -- a page and then the pages after it
  page_first :
      (st mid after : Progress) (offset limit : ℕ) (all : List Flow)
      → Wrote st (within cfg.max_rows st.row_count (take limit (drop offset all))) mid
      → Wrote mid
          (within cfg.max_rows mid.row_count
            (drop (offset + length (take limit (drop offset all))) all))
          after
      → Wrote st (within cfg.max_rows st.row_count (drop offset all)) after
  page_first st mid after offset limit all v w =
      let page = take limit (drop offset all) in
      let rest : drop (offset + length page) all ≡ drop limit (drop offset all) =
        sym (drop-drop offset (length page) all) ∙ drop-length-take limit (drop offset all) in
      let parts : within cfg.max_rows st.row_count page
            ++ within cfg.max_rows mid.row_count (drop (offset + length page) all)
          ≡ within cfg.max_rows st.row_count (drop offset all) =
        ap
          (λ n.
            within cfg.max_rows st.row_count page
            ++ within cfg.max_rows n (drop (offset + length page) all))
          v.count_eq
        ∙ ap
            (λ l.
              within cfg.max_rows st.row_count page
              ++ within cfg.max_rows (st.row_count + length (within cfg.max_rows st.row_count page))
                  l)
            rest
        ∙ sym (within-append cfg.max_rows st.row_count page (drop limit (drop offset all)))
        ∙ ap (λ l. within cfg.max_rows st.row_count l) (take-drop limit (drop offset all)) in
      subst (λ l. Wrote st l after) parts (Wrote-trans st mid after _ _ v w)

  -- a page that is not empty leaves fewer flows
  page_shorter :
      (limit offset : ℕ) (all : List Flow) (f : Flow) (fs : List Flow)
      → take limit (drop offset all) ≡ f ∷ fs
      → length (drop (offset + length (f ∷ fs)) all) < length (drop offset all)
  page_shorter limit offset all f fs e =
      let size =
        ap length (
          sym (take-drop limit (drop offset all))
          ∙ ap (λ l. l ++ drop limit (drop offset all)) e) in
      let rest : drop (offset + length (f ∷ fs)) all ≡ drop limit (drop offset all) =
        sym (drop-drop offset (length (f ∷ fs)) all)
        ∙ ap (λ l. drop (length l) (drop offset all)) (sym e)
        ∙ drop-length-take limit (drop offset all) in
      rw rest (omega (arith, size, length-append (f ∷ fs) (drop limit (drop offset all))))

  empty_page : (limit : ℕ) (fs : List Flow) → 0 < limit → take limit fs ≡ [] → fs ≡ []
  empty_page zero fs h e = absurd (omega arith)
  empty_page (suc n) [] h e = refl
  empty_page (suc n) (f ∷ fs) h e = cc e

  -- one round of the loop, from a page that is not empty
  export_round :
      (fuel : ℕ) (store : FlowFilter → Option (List Flow)) (filter : FlowFilter) (st : Progress)
      (all : List Flow) (offset : ℕ) (f : Flow) (fs : List Flow)
      → ((row : Row) → fails row ≡ false)
      → st.failed ≡ false
      → store (record filter { offset = offset }) ≡ some (f ∷ fs)
      → take filter.limit (drop offset all) ≡ f ∷ fs
      → Done
          (write_page format_time format_cost fails cfg st (f ∷ fs))
          (offset + length (f ∷ fs))
          all
          (export_pages format_time format_cost fails cfg fuel store
            (record filter { offset = offset + length (f ∷ fs) })
            (write_page format_time format_cost fails cfg st (f ∷ fs)))
      → Done st offset all (
          export_pages format_time format_cost fails cfg
            (suc fuel)
            store
            (record filter { offset = offset })
            st)
  unfolding export_pages
  export_round fuel store filter st all offset f fs h e s page (after, (d, w)) =
      let wrote = write_page-Wrote st (f ∷ fs) h e in
      let next : Progress = write_page format_time format_cost fails cfg st (f ∷ fs) in
      elim (Bool-cases (at_limit cfg st.row_count)) [
        | inl full ↦ (
          st,
          (
            rw (export_pages, s, full) refl,
            rw (within-full cfg.max_rows st.row_count (drop offset all) full) (record {
              rows_eq = sym (append-nil st.rows);
              count_eq = omega arith;
              failed_eq = e;
            }),
          ),
        )
        | inr more ↦ (
          after,
          (
            rw (export_pages, s, more) (if_false _ _ _ wrote.failed_eq ∙ d),
            page_first st next after offset filter.limit all
                (subst (λ l. Wrote st (within cfg.max_rows st.row_count l) next) (sym page) wrote)
                (subst
                  (λ l.
                    Wrote next (within cfg.max_rows next.row_count (drop (offset + length l) all))
                      after)
                  (sym page) w),
          ),
        )
      ]

  pub export_pages-Done :
      (fuel : ℕ) (store : FlowFilter → Option (List Flow)) (filter : FlowFilter) (st : Progress)
      (all : List Flow) (offset : ℕ)
      → PagesOf store filter all
      → 0 < filter.limit
      → ((row : Row) → fails row ≡ false)
      → st.failed ≡ false
      → length (drop offset all) < fuel
      → Done st offset all (
          export_pages format_time format_cost fails cfg fuel store
            (record filter { offset = offset })
            st)
  unfolding export_pages
  export_pages-Done zero store filter st all offset serves pos h e fits =
      absurd (omega (arith, fits))
  export_pages-Done (suc fuel) store filter st all offset serves pos h e fits =
      by_page (take filter.limit (drop offset all)) refl (λ mid f fs g.
        export_pages-Done fuel store filter mid all (offset + length (f ∷ fs)) serves pos h g)
    where
      by_page :
          (page : List Flow)
          → take filter.limit (drop offset all) ≡ page
          → ((mid : Progress) (f : Flow) (fs : List Flow)
              → mid.failed ≡ false
              → length (drop (offset + length (f ∷ fs)) all) < fuel
              → Done mid (offset + length (f ∷ fs)) all (
                  export_pages format_time format_cost fails cfg fuel store
                    (record filter { offset = offset + length (f ∷ fs) })
                    mid))
          → Done st offset all (
              export_pages format_time format_cost fails cfg
                (suc fuel)
                store
                (record filter { offset = offset })
                st)
      by_page [] page ih = (
        st,
        (
          rw (export_pages, serves offset, page) refl,
          rw
              (
                empty_page filter.limit (drop offset all) pos page,
                within-nil cfg.max_rows st.row_count,
              )
              (record {
                rows_eq = sym (append-nil st.rows);
                count_eq = omega arith;
                failed_eq = e;
              }),
        ),
      )
      by_page (f ∷ fs) page ih =
          let wrote = write_page-Wrote st (f ∷ fs) h e in
          let shorter = page_shorter filter.limit offset all f fs page in
          export_round fuel store filter st all offset f fs h e (serves offset ∙ ap some page) page
            (ih _ f fs wrote.failed_eq (omega (arith, shorter, fits)))

module _ (format_time format_cost : ℕ → Bytes) (fails : Row → Bool) where
  -- Over a store that gives the pages of a list of flows, and a client that takes every write, the
  -- export ends once it has the fuel for a round per flow and one more. It has written the rows of
  -- those flows, each once and in order, up to the limit on rows, and has counted them.
  pub export_pages-refines :
      (cfg : ExportConfig) (fuel : ℕ) (store : FlowFilter → Option (List Flow))
      (filter : FlowFilter) (all : List Flow)
      → PagesOf format_time format_cost fails cfg store filter all
      → 0 < filter.limit
      → filter.offset ≡ 0
      → ((row : Row) → fails row ≡ false)
      → length all < fuel
      → (after : Progress) × ((export_pages format_time format_cost fails cfg fuel store filter
              nothing_written
            ≡ some after)
          × ((after.rows ≡ map (row_of format_time format_cost cfg) (within cfg.max_rows 0 all))
              × (after.row_count ≡ length (within cfg.max_rows 0 all))))
  export_pages-refines cfg fuel store filter all serves pos first h fits =
      let (after, (d, w)) =
        export_pages-Done format_time format_cost fails cfg fuel store filter nothing_written all 0
          serves pos h refl fits in
      (
        after,
        (
          ap
                (λ n.
                  export_pages format_time format_cost fails cfg fuel store
                    (record filter { offset = n }) nothing_written)
                first
              ∙ d,
          (w.rows_eq, w.count_eq ∙ omega arith),
        ),
      )
