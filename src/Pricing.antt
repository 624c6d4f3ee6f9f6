-- ===== src/Pricing.antt =====
-- internal/pricing/litellm.go: prices of models, by provider and name. JSON, the network and the
-- cache file are parameters. A cost is counted in a unit in which the costs for one token are whole
-- numbers. The walk over a map is in the order of its list.
pub mod Lookup
mod Tests
use langley.Prelude.{
  ℕ, ◌+◌, ◌*◌, Bool, true, false, not, ◌&&◌, ◌||◌, List, [], ◌∷◌, ◌++◌, map, Option, none, some,
  ◌>>=◌, Bytes, codes, beq, is_empty, Dict, lookup, insert, ltb, leb, ◌==◌, if◌then◌else◌, length,
}
use langley.Go.Strings.{to_lower, contains, trim_prefix, has_prefix, split_on, join}

pub record ModelPrice : Type 0 where
  pub provider : Bytes
  pub model : Bytes
  pub input_cost_per_1k : ℕ
  pub output_cost_per_1k : ℕ
  pub cache_creation_per_1k : Option ℕ
  pub cache_read_per_1k : Option ℕ
  pub max_input_tokens : ℕ
  pub max_output_tokens : ℕ
  pub supports_prompt_caching : Bool
  pub supports_vision : Bool
  pub supports_function_call : Bool

-- litellmEntry
pub record Entry : Type 0 where
  pub litellm_provider : Bytes
  pub input_cost_per_token : Option ℕ
  pub output_cost_per_token : Option ℕ
  pub cache_creation_input_token_cost : Option ℕ
  pub cache_read_input_token_cost : Option ℕ
  pub max_input_tokens : ℕ
  pub max_output_tokens : ℕ
  pub mode : Bytes
  pub supports_prompt_caching : Bool
  pub supports_vision : Bool
  pub supports_function_calling : Bool

pub record PriceSource : Type 0 where
  pub prices : Dict ModelPrice
  pub fetched_at : ℕ
  pub ttl : ℕ
  pub cache_dir : Bytes

abbrev pub default_ttl : ℕ
default_ttl = 24 * 3_600 * 1_000_000_000

abbrev pub new_price_source : Bytes → ℕ → PriceSource
new_price_source cache_dir ttl = record {
  prices = [];
  fetched_at = 0;
  ttl = if ttl == 0 then default_ttl else ttl;
  cache_dir = cache_dir;
}

unfoldable pub normalize_provider : Bytes → Bytes
normalize_provider name =
    let provider = to_lower name in
    if contains provider (codes "anthropic")
    then codes "anthropic"
    else if contains provider (codes "azure")
    then codes "azure"
    else if contains provider (codes "openai")
    then codes "openai"
    else if contains provider (codes "bedrock")
    then codes "bedrock"
    else if contains provider (codes "vertex") || contains provider (codes "google")
    then codes "google"
    else if contains provider (codes "cohere")
    then codes "cohere"
    else if contains provider (codes "mistral")
    then codes "mistral"
    else if contains provider (codes "groq")
    then codes "groq"
    else provider

unfoldable pub normalize_model_key : Bytes → Bytes → Bytes
normalize_model_key provider model =
    let own = trim_prefix model (provider ++ b'/' ∷ []) in
    let bare = trim_prefix (trim_prefix own (codes "anthropic/")) (codes "openai/") in
    provider ++ b'/' ∷ to_lower bare

unfoldable pub all_digits : Bytes → Bool
all_digits [] = true
all_digits (c ∷ s) = leb b'0' c && leb c b'9' && all_digits s

-- the parts but the last, and the last
unfoldable pub split_last : List Bytes → Option (List Bytes × Bytes)
split_last [] = none
split_last (p ∷ ps) = elim (split_last ps) [ none ↦ some ([], p) | some q ↦ some (p ∷ q.0, q.1) ]

-- a date of 8 digits after the last dash is taken off
unfoldable pub strip_model_version : Bytes → Bytes
unfolding all_digits split_last
strip_model_version model = elim (split_last (split_on b'-' model)) [
  | none ↦ model
  | some q ↦ elim q.0 [
    | [] ↦ model
    | p ∷ ps ↦ if length q.1 == 8 && all_digits q.1 then join b'-' (p ∷ ps) else model
  ]
]

-- the first price whose key begins with `key` and a dash, or with `key`
unfoldable pub prefix_price : Bytes → Dict ModelPrice → Option ModelPrice
prefix_price key [] = none
prefix_price key ((k, price) ∷ prices) =
    if has_prefix k (key ++ b'-' ∷ []) || has_prefix k key
    then some price
    else prefix_price key prices

-- the lookup without the version, and then by prefix
unfoldable pub base_price : Dict ModelPrice → Bytes → Bytes → Option ModelPrice
unfolding prefix_price
base_price prices provider model =
    let base_model = strip_model_version model in
    if beq base_model model
    then prefix_price (normalize_model_key provider model) prices
    else elim (lookup (normalize_model_key provider base_model) prices) [
      | some price ↦ some price
      | none ↦ prefix_price (normalize_model_key provider base_model) prices
    ]

unfoldable pub get_price : PriceSource → Bytes → Bytes → Option ModelPrice
get_price s name model =
    let provider = normalize_provider name in
    elim (lookup (normalize_model_key provider model) s.prices) [
      | some price ↦ some price
      | none ↦ base_price s.prices provider model
    ]

abbrev pub per_1k : Option ℕ → Option ℕ
per_1k none = none
per_1k (some cost) = some (cost * 1000)

-- the price of an entry, unless it is no chat model or has no token prices
unfoldable pub entry_price : Bytes → Entry → Option ModelPrice
entry_price model_name e =
    if not (is_empty e.mode) && not (beq e.mode (codes "chat")) then none else do
      input_cost ← e.input_cost_per_token
      output_cost ← e.output_cost_per_token
      some (record {
        provider = normalize_provider e.litellm_provider;
        model = model_name;
        input_cost_per_1k = input_cost * 1000;
        output_cost_per_1k = output_cost * 1000;
        cache_creation_per_1k = per_1k e.cache_creation_input_token_cost;
        cache_read_per_1k = per_1k e.cache_read_input_token_cost;
        max_input_tokens = e.max_input_tokens;
        max_output_tokens = e.max_output_tokens;
        supports_prompt_caching = e.supports_prompt_caching;
        supports_vision = e.supports_vision;
        supports_function_call = e.supports_function_calling;
      })

unfoldable pub entry_key : Bytes → Entry → Bytes
entry_key model_name e = normalize_model_key (normalize_provider e.litellm_provider) model_name

module _ (decode_entries : Bytes → Option (Dict Bytes)) (decode_entry : Bytes → Option Entry) where
  -- one entry; a malformed one is skipped
  unfoldable pub load_entry : Dict ModelPrice → Bytes → Bytes → Dict ModelPrice
  unfolding entry_price entry_key
  load_entry prices model_name raw = elim (decode_entry raw) [
    | none ↦ prices
    | some e ↦ elim (entry_price model_name e) [
      | none ↦ prices
      | some price ↦ insert (entry_key model_name e) price prices
    ]
  ]

  unfoldable pub load_entries : Dict ModelPrice → Dict Bytes → Dict ModelPrice
  unfolding load_entry
  load_entries prices [] = prices
  load_entries prices ((model_name, raw) ∷ entries) =
      load_entries (load_entry prices model_name raw) entries

  -- parseAndLoad; `none` is an error
  unfoldable pub parse_and_load : PriceSource → ℕ → Bytes → Option PriceSource
  unfolding load_entries
  parse_and_load s now body = do
    entries ← decode_entries body
    some (record s { prices = load_entries [] entries; fetched_at = now })

  -- loadFromCache, from the file's time and contents
  unfoldable pub load_from_cache : PriceSource → ℕ → Option (ℕ × Bytes) → Option PriceSource
  unfolding parse_and_load
  load_from_cache s now file = do
    (mod_time, body) ← file
    loaded ← (if ltb (mod_time + s.ttl) now then none else parse_and_load s now body)
    some (record loaded { fetched_at = mod_time })

  -- fetchFromLiteLLM, from what the download gives; then parseAndLoad
  unfoldable pub fetch : PriceSource → ℕ → Option Bytes → Option PriceSource
  unfolding parse_and_load
  fetch s now download = do body ← download; parse_and_load s now body

  -- Load without its last step, the writing of the cache file, whose errors are only logged
  unfoldable pub load : PriceSource → ℕ → Option (ℕ × Bytes) → Option Bytes → Option PriceSource
  unfolding load_from_cache fetch
  load s now file download =
      let fetched : Option PriceSource = elim (fetch s now download) [
        | some loaded ↦ some loaded
        | none ↦ if ltb 0 (length s.prices) then some s else none
      ] in
      if is_empty s.cache_dir
      then fetched
      else elim (load_from_cache s now file) [ some loaded ↦ some loaded | none ↦ fetched ]

  -- RefreshIfStale: an error keeps the old prices
  unfoldable pub refresh_if_stale : PriceSource → ℕ → Option Bytes → PriceSource
  unfolding fetch
  refresh_if_stale s now download =
      if ltb (s.fetched_at + s.ttl) now
      then elim (fetch s now download) [ some loaded ↦ loaded | none ↦ s ]
      else s

abbrev pub count : PriceSource → ℕ
count s = length s.prices
