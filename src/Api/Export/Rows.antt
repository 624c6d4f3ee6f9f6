-- ===== src/Api/Export/Rows.antt =====
-- exportFlows of internal/api/api.go: the loop over the pages of the store.
use langley.Prelude.{
  ℕ, zero, suc, ◌+◌, Bool, true, false, ◌&&◌, ◌||◌, List, [], ◌∷◌, ◌++◌, Option, none, some, ◌>>=◌,
  Bytes, codes, ltb, leb, if◌then◌else◌, length,
}
use langley.Go.Strings.{decimal}
use langley.Store.{Flow, FlowFilter}
use langley.Api.Flows.{filter_of}
use langley.Api.Export.{
  ExportFormat, ndjson, json, csv, ExportConfig, parse_export_config, content_type, Row, fields,
  csv_columns, row_of,
}

-- what has been written, and whether a write has failed
pub record Progress : Type 0 where
  pub rows : List Row
  pub row_count : ℕ
  pub truncated_bodies : ℕ
  pub failed : Bool

abbrev pub at_limit : ExportConfig → ℕ → Bool
at_limit cfg row_count = ltb 0 cfg.max_rows && leb cfg.max_rows row_count

-- a write to the client fails; the JSON exporter writes only at the end
abbrev pub cannot_write : (Row → Bool) → ExportFormat → Row → Bool
cannot_write fails ndjson row = fails row
cannot_write fails csv row = fails row
cannot_write fails json row = false

module _ (format_time format_cost : ℕ → Bytes) (fails : Row → Bool) (cfg : ExportConfig) where
  abbrev pub with_row : Progress → Flow → Progress
  with_row st f = record st {
    rows = st.rows ++ row_of format_time format_cost cfg f ∷ [];
    row_count = st.row_count + 1;
    truncated_bodies =
        if cfg.include_bodies && (f.request_body_truncated || f.response_body_truncated)
        then st.truncated_bodies + 1
        else st.truncated_bodies;
  }

  -- the flows of a page
  unfoldable pub write_page : Progress → List Flow → Progress
  write_page st [] = st
  write_page st (f ∷ fs) =
      let rest = write_page (with_row st f) fs in
      let stopped : Progress = record st { failed = true } in
      if at_limit cfg st.row_count
      then st
      else if cannot_write fails cfg.format (row_of format_time format_cost cfg f)
      then stopped
      else rest

  -- the pages, one query for each; `none` is out of fuel. An error of a query ends the export as if
  -- there were no more flows.
  unfoldable pub export_pages :
      ℕ → (FlowFilter → Option (List Flow)) → FlowFilter → Progress → Option Progress
  export_pages zero store filter st = none
  export_pages (suc fuel) store filter st = elim (store filter) [
    | none ↦ some st
    | some [] ↦ some st
    | some (f ∷ fs) ↦
        let next = write_page st (f ∷ fs) in
        let rest =
          export_pages fuel store (record filter { offset = filter.offset + length (f ∷ fs) })
            next in
        if at_limit cfg st.row_count then some st else if next.failed then some next else rest
  ]

abbrev pub nothing_written : Progress
nothing_written = record { rows = []; row_count = 0; truncated_bodies = 0; failed = false }

-- the response: its type, its preamble and rows, the counts in its JSON footer, and its headers,
-- which are set after the body
pub record Exported : Type 0 where
  pub content_type : Bytes
  pub preamble : Option Row
  pub rows : List Row
  pub footer : Option (ℕ × Option ℕ)
  pub late_headers : List (Bytes × Bytes)

abbrev pub preamble_of : ExportFormat → Option Row
preamble_of csv = some (fields csv_columns)
preamble_of other = none

abbrev pub truncated_count : ExportConfig → ℕ → Option ℕ
truncated_count cfg n = if cfg.include_bodies && ltb 0 n then some n else none

abbrev pub footer_of : ExportConfig → Progress → Option (ℕ × Option ℕ)
footer_of cfg st = elim cfg.format [
  | json ↦ some (st.row_count, truncated_count cfg st.truncated_bodies)
  | other ↦ none
]

abbrev pub late_headers_of : ExportConfig → Progress → List (Bytes × Bytes)
late_headers_of cfg st = elim cfg.format [
  | json ↦ []
  | other ↦
      (codes "X-Export-Row-Count", decimal st.row_count)
      ∷ elim (truncated_count cfg st.truncated_bodies) [
        | some n ↦ (codes "X-Export-Truncated-Bodies", decimal n) ∷ []
        | none ↦ []
      ]
]

-- after the loop; a failed write leaves out the footer
abbrev pub finish_export : ExportConfig → Progress → Exported
finish_export cfg st = record {
  content_type = content_type cfg.format;
  preamble = preamble_of cfg.format;
  rows = st.rows;
  footer = if st.failed then none else footer_of cfg st;
  late_headers = if st.failed then [] else late_headers_of cfg st;
}

-- exportFlows
unfoldable pub export_flows :
    (Bytes → Option ℕ)
    → (ℕ → Bytes)
    → (ℕ → Bytes)
    → (Row → Bool)
    → ℕ
    → (FlowFilter → Option (List Flow))
    → (Bytes → Bytes)
    → Option Exported
export_flows parse_time format_time format_cost fails fuel store query = do
  st ←
      export_pages format_time format_cost fails (parse_export_config query) fuel store
        (filter_of parse_time query 100 0) nothing_written
  some (finish_export (parse_export_config query) st)
