-- ===== src/Provider/Usage/Streamed.antt =====
-- The usage that the stream parsers of OpenAI and Gemini end with: that of the last chunk that has
-- one.
use langley.Prelude.{
  ◌≡◌, refl, ◌∙◌, Bool, true, false, List, [], ◌∷◌, Option, none, some, Bytes, is_empty, codes, beq,
  if◌then◌else◌, Option-cases, inl, inr,
}
use langley.Parser.Json.{pos}
use langley.Go.Strings.{has_prefix, trim_prefix, trim_space, split_on}
use langley.Provider.{openai}
use langley.Provider.Usage.{
  Usage, Tokens, Chunk, Decoders, empty_usage, take_chunk, openai_line, fold_lines, parse_sse,
}

abbrev pub or_else {ℓ} : {A : Type ℓ} → Option A → A → A
or_else (some a) d = a
or_else none d = d

-- the last line that gives something
unfoldable pub last_some {ℓ} : {A : Type ℓ} → (Bytes → Option A) → List Bytes → Option A
last_some f [] = none
last_some f (l ∷ ls) = elim (last_some f ls) [ some a ↦ some a | none ↦ f l ]

abbrev pub chunk_tokens : Option Chunk → Option Tokens
chunk_tokens none = none
chunk_tokens (some c) = c.usage

abbrev pub chunk_model : Option Chunk → Option Bytes
chunk_model none = none
chunk_model (some c) = if is_empty c.model then none else some c.model

abbrev pub tokens_of : Usage → Tokens
tokens_of u = record { input = u.input_tokens; output = u.output_tokens }

abbrev pub no_tokens : Tokens
no_tokens = record { input = pos 0; output = pos 0 }

module _ (decode : Decoders) where
  -- the chunk of a line of an OpenAI stream
  unfoldable pub openai_chunk_of : Bytes → Option Chunk
  openai_chunk_of line =
      let s = trim_space line in
      let chunk = trim_space (trim_prefix s (codes "data:")) in
      if has_prefix s (codes "data:")
      then if beq chunk (codes "[DONE]") then none else decode.openai_chunk chunk
      else none

  fold_lines-last {ℓ} :
      {A : Type ℓ} (step : Usage → Bytes → Usage) (read : Usage → A) (f : Bytes → Option A)
      → ((u : Usage) (l : Bytes) → read (step u l) ≡ or_else (f l) (read u))
      → (u : Usage) (ls : List Bytes)
      → read (fold_lines decode step u ls) ≡ or_else (last_some f ls) (read u)
  unfolding fold_lines last_some
  fold_lines-last step read f h u [] = refl
  fold_lines-last step read f h u (l ∷ ls) =
      let rest = fold_lines-last step read f h (step u l) ls in
      elim (Option-cases (last_some f ls)) [
        | inl none_later ↦ rw none_later (rw none_later at rest ∙ h u l)
        | inr (a, later) ↦ rw later (rw later at rest)
      ]

  take_chunk-tokens :
      (u : Usage) (c : Chunk) → tokens_of (take_chunk u c) ≡ or_else c.usage (tokens_of u)
  unfolding take_chunk
  take_chunk-tokens u c = by_usage c.usage (is_empty c.model) c.model
    where
      by_usage :
          (o : Option Tokens) (b : Bool) (m : Bytes)
          → tokens_of (elim o [
            | some t ↦ record (if b then u else record u { model = m }) {
              input_tokens = t.input;
              output_tokens = t.output;
            }
            | none ↦ if b then u else record u { model = m }
          ])
            ≡ or_else o (tokens_of u)
      by_usage none true m = refl
      by_usage none false m = refl
      by_usage (some t) b m = refl

  openai_line-tokens :
      (u : Usage) (l : Bytes)
      → tokens_of (openai_line decode u l)
        ≡ or_else (chunk_tokens (openai_chunk_of l)) (tokens_of u)
  unfolding openai_line openai_chunk_of
  openai_line-tokens u l =
      let chunk = trim_space (trim_prefix (trim_space l) (codes "data:")) in
      by_test (has_prefix (trim_space l) (codes "data:")) (beq chunk (codes "[DONE]"))
        (decode.openai_chunk chunk)
    where
      by_test :
          (a b : Bool) (d : Option Chunk)
          → tokens_of
              (if a then if b then u else (elim d [ some c ↦ take_chunk u c | none ↦ u ]) else u)
            ≡ or_else (chunk_tokens (if a then if b then none else d else none)) (tokens_of u)
      by_test false b d = refl
      by_test true true d = refl
      by_test true false none = refl
      by_test true false (some c) = take_chunk-tokens u c

  -- The tokens that OpenAI's parseSSE returns are those of the last line of the body that holds a
  -- chunk with usage, and zero if there is no such line.
  pub parse_sse-openai_tokens :
      (body : Bytes)
      → tokens_of (parse_sse decode openai body)
        ≡ or_else (last_some (λ l. chunk_tokens (openai_chunk_of l)) (split_on 10 body)) no_tokens
  unfolding parse_sse
  parse_sse-openai_tokens body =
      fold_lines-last (openai_line decode) tokens_of _ openai_line-tokens empty_usage
        (split_on 10 body)
