-- ===== src/Pricing/Tests.antt =====
-- A price of internal/pricing/litellm.go that is loaded and found.
use langley.Prelude.{◌≡◌, refl, true, beq, [], ◌∷◌, Option, none, some, Bytes, codes, Dict}
use langley.Pricing.{
  Entry, ModelPrice, PriceSource, new_price_source, get_price, parse_and_load, entry_price,
  strip_model_version, split_last, all_digits, normalize_provider,
}
use langley.Go.Strings.{split_on, join, index, index_from, has_prefix, to_lower, to_lower_byte}
use langley.Pricing.Lookup.{get_price-parse_and_load}

abbrev sonnet : Entry
sonnet = record {
  litellm_provider = codes "anthropic";
  input_cost_per_token = some 3;
  output_cost_per_token = some 15;
  cache_creation_input_token_cost = none;
  cache_read_input_token_cost = none;
  max_input_tokens = 200000;
  max_output_tokens = 64000;
  mode = codes "chat";
  supports_prompt_caching = true;
  supports_vision = true;
  supports_function_calling = true;
}

abbrev sonnet_price : ModelPrice
sonnet_price = record {
  provider = codes "anthropic";
  model = codes "claude-sonnet-4";
  input_cost_per_1k = 3000;
  output_cost_per_1k = 15000;
  cache_creation_per_1k = none;
  cache_read_per_1k = none;
  max_input_tokens = 200000;
  max_output_tokens = 64000;
  supports_prompt_caching = true;
  supports_vision = true;
  supports_function_call = true;
}

-- a body that decodes as one entry
abbrev one_entry : Bytes → Option (Dict Bytes)
one_entry body = some ((codes "claude-sonnet-4", body) ∷ [])

abbrev as_sonnet : Bytes → Option Entry
as_sonnet raw = some sonnet

strip_date : strip_model_version (codes "claude-sonnet-4-20250514") ≡ codes "claude-sonnet-4"
unfolding strip_model_version split_last all_digits split_on join
strip_date = refl

sonnet-entry_price : entry_price (codes "claude-sonnet-4") sonnet ≡ some sonnet_price
unfolding entry_price normalize_provider index index_from has_prefix to_lower to_lower_byte beq
sonnet-entry_price = refl

get_price-parse_and_load_example :
    (loaded : PriceSource) × ((parse_and_load one_entry as_sonnet
          (new_price_source [] 0)
          7
          (codes "{}")
        ≡ some loaded)
      × (get_price loaded (codes "anthropic") (codes "claude-sonnet-4") ≡ some sonnet_price))
get_price-parse_and_load_example =
    get_price-parse_and_load one_entry as_sonnet (new_price_source [] 0) 7 (codes "{}") []
      (codes "claude-sonnet-4") (codes "{}") [] sonnet sonnet_price (codes "anthropic") refl refl
      sonnet-entry_price tt refl
