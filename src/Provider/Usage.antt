-- ===== src/Provider/Usage.antt =====
-- The ParseUsage methods of internal/provider: anthropic.go, openai.go, gemini.go, bedrock.go. A
-- decoder of encoding/json into a struct is a parameter, with `none` for its error; a pointer
-- field that may be nil is an Option.
pub mod Streamed
use langley.Prelude.{
  ℕ, suc, Bool, true, false, ◌||◌, List, [], ◌∷◌, ◌++◌, Option, none, some, Bytes, is_empty, codes,
  beq, if◌then◌else◌,
}
use langley.Parser.Json.{ℤ, pos, negsuc}
use langley.Go.Strings.{has_prefix, trim_prefix, trim_space, split_on}
use langley.Provider.{Provider, anthropic, openai, gemini, bedrock}

pub record Usage : Type 0 where
  pub input_tokens : ℤ
  pub output_tokens : ℤ
  pub cache_creation_tokens : ℤ
  pub cache_read_tokens : ℤ
  pub model : Bytes

abbrev pub empty_usage : Usage
empty_usage = record {
  input_tokens = pos 0;
  output_tokens = pos 0;
  cache_creation_tokens = pos 0;
  cache_read_tokens = pos 0;
  model = [];
}

-- n > 0
unfoldable pub positive : ℤ → Bool
positive (pos (suc n)) = true
positive n = false

-- the input and the output tokens of a body
pub record Tokens : Type 0 where
  pub input : ℤ
  pub output : ℤ

abbrev pub with_tokens : Usage → Tokens → Usage
with_tokens usage t = record usage { input_tokens = t.input; output_tokens = t.output }

abbrev pub tokens_only : Tokens → Usage
tokens_only t = with_tokens empty_usage t

pub record AnthropicResponse : Type 0 where
  pub model : Bytes
  pub input_tokens : ℤ
  pub output_tokens : ℤ
  pub cache_creation_input_tokens : ℤ
  pub cache_read_input_tokens : ℤ

-- a body or a chunk with a model and, perhaps, tokens (OpenAI, Gemini)
pub record Chunk : Type 0 where
  pub model : Bytes
  pub usage : Option Tokens

-- the message of message_start
pub record Start : Type 0 where
  pub model : Bytes
  pub input_tokens : ℤ
  pub cache_creation_input_tokens : ℤ
  pub cache_read_input_tokens : ℤ

-- a Bedrock body and a Bedrock event
pub record BedrockResponse : Type 0 where
  pub usage : Option Tokens
  pub input_token_count : ℤ
  pub output_token_count : ℤ

pub record BedrockEvent : Type 0 where
  pub metadata_usage : Option Tokens
  pub input_token_count : ℤ
  pub output_token_count : ℤ

-- the decoders of the four providers
pub record Decoders : Type 0 where
  pub anthropic_body : Bytes → Option AnthropicResponse
  pub message_start : Bytes → Option Start
  pub message_delta : Bytes → Option ℤ
  pub openai_body : Bytes → Option Chunk
  pub openai_chunk : Bytes → Option Chunk
  pub gemini_body : Bytes → Option Chunk
  pub gemini_chunk : Bytes → Option Chunk
  pub bedrock_body : Bytes → Option BedrockResponse
  pub claude_body : Bytes → Option (Option Tokens)
  pub bedrock_event : Bytes → Option BedrockEvent

-- Anthropic.parseJSON
unfoldable pub response_usage : AnthropicResponse → Usage
response_usage r = record {
  model = r.model;
  input_tokens = r.input_tokens;
  output_tokens = r.output_tokens;
  cache_creation_tokens = r.cache_creation_input_tokens;
  cache_read_tokens = r.cache_read_input_tokens;
}

-- the model, if there is one, and the tokens, if there are any
unfoldable pub take_chunk : Usage → Chunk → Usage
take_chunk usage chunk =
    let named = if is_empty chunk.model then usage else record usage { model = chunk.model } in
    elim chunk.usage [ some t ↦ with_tokens named t | none ↦ named ]

module _ (decode : Decoders) where
  -- Anthropic.processEvent
  unfoldable pub process_event : Usage → Bytes → Bytes → Usage
  process_event usage event_type body =
      if beq event_type (codes "message_start")
      then elim (decode.message_start body) [
        | some m ↦ record usage {
          model = m.model;
          input_tokens = m.input_tokens;
          cache_creation_tokens = m.cache_creation_input_tokens;
          cache_read_tokens = m.cache_read_input_tokens;
        }
        | none ↦ usage
      ]
      else if beq event_type (codes "message_delta")
      then elim (decode.message_delta body) [
        | some output ↦ record usage { output_tokens = output }
        | none ↦ usage
      ]
      else usage

  -- the event at its end, if it has a type and data
  unfoldable pub end_event : Usage → Bytes → Bytes → Usage
  unfolding process_event
  end_event usage kind buffer =
      if is_empty kind || is_empty buffer then usage else process_event usage kind buffer

  -- the loop of Anthropic.parseSSE, with the current type and the data so far
  unfoldable pub anthropic_lines : Usage → Bytes → Bytes → List Bytes → Usage
  unfolding end_event
  anthropic_lines usage kind buffer [] = end_event usage kind buffer
  anthropic_lines usage kind buffer ([] ∷ lines) =
      anthropic_lines (end_event usage kind buffer) [] [] lines
  anthropic_lines usage kind buffer ((c ∷ line) ∷ lines) =
      if has_prefix (c ∷ line) (codes "event:")
      then anthropic_lines usage (trim_space (trim_prefix (c ∷ line) (codes "event:"))) buffer lines
      else if has_prefix (c ∷ line) (codes "data:")
      then anthropic_lines usage kind (buffer ++ trim_prefix (c ∷ line) (codes "data:")) lines
      else anthropic_lines usage kind buffer lines

  -- a line of OpenAI.parseSSE
  unfoldable pub openai_line : Usage → Bytes → Usage
  unfolding take_chunk
  openai_line usage line =
      let trimmed = trim_space line in
      let chunk = trim_space (trim_prefix trimmed (codes "data:")) in
      if has_prefix trimmed (codes "data:")
      then if beq chunk (codes "[DONE]")
        then usage
        else elim (decode.openai_chunk chunk) [ some d ↦ take_chunk usage d | none ↦ usage ]
      else usage

  -- a line of Gemini.parseSSE
  unfoldable pub gemini_line : Usage → Bytes → Usage
  unfolding take_chunk
  gemini_line usage line =
      let trimmed = trim_space line in
      let chunk =
        if has_prefix trimmed (codes "data:")
        then trim_space (trim_prefix trimmed (codes "data:"))
        else trimmed in
      if is_empty chunk || beq chunk (codes "[DONE]")
      then usage
      else elim (decode.gemini_chunk chunk) [ some d ↦ take_chunk usage d | none ↦ usage ]

  unfoldable pub take_event : Usage → BedrockEvent → Usage
  unfolding positive
  take_event usage e =
      let metered : Usage = elim e.metadata_usage [ some t ↦ with_tokens usage t | none ↦ usage ] in
      record metered {
        input_tokens =
            if positive e.input_token_count then e.input_token_count else metered.input_tokens;
        output_tokens =
            if positive e.output_token_count then e.output_token_count else metered.output_tokens;
      }

  -- a line of Bedrock.parseSSE
  unfoldable pub bedrock_line : Usage → Bytes → Usage
  unfolding take_event
  bedrock_line usage line =
      let trimmed = trim_space line in
      let event = trim_space (trim_prefix trimmed (codes "data:")) in
      if has_prefix trimmed (codes "data:")
      then if is_empty event
        then usage
        else elim (decode.bedrock_event event) [ some d ↦ take_event usage d | none ↦ usage ]
      else usage

  unfoldable pub fold_lines : (Usage → Bytes → Usage) → Usage → List Bytes → Usage
  fold_lines step usage [] = usage
  fold_lines step usage (l ∷ ls) = fold_lines step (step usage l) ls

  -- OpenAI.parseJSON: no usage is the zero value
  unfoldable pub body_usage : Chunk → Usage
  body_usage r = elim r.usage [
    | some t ↦ record (tokens_only t) { model = r.model }
    | none ↦ record empty_usage { model = r.model }
  ]

  -- Bedrock.parseJSON once the body is decoded
  unfoldable pub bedrock_usage : Bytes → BedrockResponse → Option Usage
  unfolding positive
  bedrock_usage body r =
      let wrapped : Tokens = record {
        input = r.input_token_count;
        output = r.output_token_count;
      } in
      let native : Option Usage = elim (decode.claude_body body) [
        | none ↦ none
        | some u ↦ elim u [ some t ↦ some (tokens_only t) | none ↦ some empty_usage ]
      ] in
      let unmetered : Option Usage =
        if positive r.input_token_count || positive r.output_token_count
        then some (tokens_only wrapped)
        else native in
      elim r.usage [
        | some t ↦ if positive t.input || positive t.output then some (tokens_only t) else unmetered
        | none ↦ unmetered
      ]

  unfoldable pub parse_json : Provider → Bytes → Option Usage
  unfolding body_usage bedrock_usage
  parse_json anthropic body = elim (decode.anthropic_body body) [
    | some r ↦ some (response_usage r)
    | none ↦ none
  ]
  parse_json openai body = elim (decode.openai_body body) [
    | some r ↦ some (body_usage r)
    | none ↦ none
  ]
  parse_json gemini body = elim (decode.gemini_body body) [
    | some r ↦ some (body_usage r)
    | none ↦ none
  ]
  parse_json bedrock body = elim (decode.bedrock_body body) [
    | some r ↦ bedrock_usage body r
    | none ↦ none
  ]

  unfoldable pub parse_sse : Provider → Bytes → Usage
  unfolding anthropic_lines fold_lines openai_line gemini_line bedrock_line
  parse_sse anthropic body = anthropic_lines empty_usage [] [] (split_on 10 body)
  parse_sse openai body = fold_lines openai_line empty_usage (split_on 10 body)
  parse_sse gemini body = fold_lines gemini_line empty_usage (split_on 10 body)
  parse_sse bedrock body = fold_lines bedrock_line empty_usage (split_on 10 body)

  -- ParseUsage; `none` is an error
  unfoldable pub parse_usage : Provider → Bytes → Bool → Option Usage
  parse_usage p body true = some (parse_sse p body)
  parse_usage p body false = parse_json p body
