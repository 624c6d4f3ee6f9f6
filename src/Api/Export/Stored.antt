-- ===== src/Api/Export/Stored.antt =====
-- exportFlows of internal/api/api.go over the tables of internal/store/sqlite.go.
use langley.Prelude.{ℕ, ◌<◌, ◌≡◌, refl, Bool, false, List, map, Option, some, Bytes, Perm, arith}
use langley.Store.{FlowFilter}
use langley.Store.Tables.{FlowRow, Database, Codec}
use langley.Store.Query.{list_flows, count_flows}
use langley.Store.Query.Paged.{listed, list_flows-page, length-listed}
use langley.Api.Flows.{filter_of}
use langley.Api.Export.{Row, row_of, parse_export_config}
use langley.Api.Export.Rows.{Exported, export_flows, finish_export}
use langley.Api.Export.Pages.{within, export_pages-refines}

module _ (c : Codec) (order : List FlowRow → List FlowRow) (db : Database) where
  -- Over tables that do not change, with a client that takes every write and with more rounds than
  -- CountFlows counts, exportFlows ends: its rows are those of all flows that the query asks for, each
  -- once and in the order of ListFlows, up to the limit on rows.
  pub export_flows-listed :
      (parse_time : Bytes → Option ℕ) (format_time format_cost : ℕ → Bytes) (fails : Row → Bool)
      (fuel : ℕ) (query : Bytes → Bytes)
      → ((rows : List FlowRow) → Perm (order rows) rows)
      → ((row : Row) → fails row ≡ false)
      → count_flows c (filter_of parse_time query 100 0) db < fuel
      → (e : Exported) × ((export_flows parse_time format_time format_cost fails fuel
              (λ filter. list_flows c order filter db)
              query
            ≡ some e)
          × (e.rows
              ≡ map (row_of format_time format_cost (parse_export_config query)) (
                  within
                    (parse_export_config query).max_rows
                    0
                    (listed c order (filter_of parse_time query 100 0) db))))
  unfolding export_flows filter_of
  export_flows-listed parse_time format_time format_cost fails fuel query perm h fits =
      let filter : FlowFilter = filter_of parse_time query 100 0 in
      let size = length-listed c order filter db perm in
      let (after, (done, (rows, n))) =
        export_pages-refines format_time format_cost fails (parse_export_config query) fuel
          (λ f. list_flows c order f db) filter (listed c order filter db)
          (λ offset. list_flows-page c order filter db offset (omega arith)) (omega arith) refl h
          (omega (arith, size, fits)) in
      (finish_export (parse_export_config query) after, (rw done refl, rows))
