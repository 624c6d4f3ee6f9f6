-- ===== src/Analytics/Cost.antt =====
-- GetPricing and CalculateCost of internal/analytics/analytics.go. Prices are in the unit of
-- Pricing, a cost in thousandths of it, so that nothing is rounded; counts of tokens are not
-- negative. What the query of the table of prices gives is a parameter.
use langley.Prelude.{ℕ, ◌+◌, ◌*◌, Option, none, some, Bytes, codes, []}
use langley.Pricing.{ModelPrice, PriceSource, get_price}

pub record ModelPricing : Type 0 where
  pub provider : Bytes
  pub model_pattern : Bytes
  pub input_cost_per_1k : ℕ
  pub output_cost_per_1k : ℕ
  pub cache_creation_per_1k : Option ℕ
  pub cache_read_per_1k : Option ℕ

-- what the query for a provider and a model gives
pub data PricingRow : Type 0 where
  no_rows query_failed : PricingRow
  row : ModelPricing → PricingRow

pub record Engine : Type 0 where
  pub pricing_source : Option PriceSource
  pub query_pricing : Bytes → Bytes → PricingRow

abbrev pub of_price : ModelPrice → ModelPricing
of_price price = record {
  provider = price.provider;
  model_pattern = price.model;
  input_cost_per_1k = price.input_cost_per_1k;
  output_cost_per_1k = price.output_cost_per_1k;
  cache_creation_per_1k = price.cache_creation_per_1k;
  cache_read_per_1k = price.cache_read_per_1k;
}

abbrev pub row_pricing : PricingRow → Option (Option ModelPricing)
row_pricing no_rows = some none
row_pricing query_failed = none
row_pricing (row pricing) = some (some pricing)

abbrev pub source_price : Option PriceSource → Bytes → Bytes → Option ModelPrice
source_price none provider model = none
source_price (some source) provider model = get_price source provider model

-- GetPricing: `none` is an error, `some none` is nil
unfoldable pub get_pricing : Engine → Bytes → Bytes → Option (Option ModelPricing)
get_pricing e provider model = elim (source_price e.pricing_source provider model) [
  | some price ↦ some (some (of_price price))
  | none ↦ row_pricing (e.query_pricing provider model)
]

-- the counts of a request
pub record TokenCounts : Type 0 where
  pub input_tokens : ℕ
  pub output_tokens : ℕ
  pub cache_creation : ℕ
  pub cache_read : ℕ

abbrev pub cache_cost : ℕ → Option ℕ → ℕ
cache_cost tokens none = 0
cache_cost tokens (some per_1k) = tokens * per_1k

unfoldable pub cost_of : ModelPricing → TokenCounts → ℕ
cost_of p t =
    t.input_tokens * p.input_cost_per_1k
    + t.output_tokens * p.output_cost_per_1k
    + cache_cost t.cache_creation p.cache_creation_per_1k
    + cache_cost t.cache_read p.cache_read_per_1k

-- CalculateCost: the cost and its source, or `none` for an error
unfoldable pub calculate_cost : Engine → Bytes → Bytes → TokenCounts → Option (ℕ × Bytes)
unfolding get_pricing cost_of
calculate_cost e provider model t = elim (get_pricing e provider model) [
  | none ↦ none
  | some none ↦ some (0, [])
  | some (some pricing) ↦ some (cost_of pricing t, codes "exact")
]
