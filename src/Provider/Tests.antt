-- ===== src/Provider/Tests.antt =====
-- Runs of the host detection of internal/provider, and its theorems at concrete hosts.
use langley.Prelude.{
  Option, if◌then◌else◌, ◌≡◌, refl, false, ◌∷◌, ◌++◌, some, none, Bytes, codes, beq,
}
use langley.Go.Strings.{
  split_on, trim_space, trim_prefix, to_lower, cut_last, has_suffix, has_prefix,
}
use langley.Parser.Json.{pos}
use langley.Provider.Usage.{Chunk, Decoders, parse_sse, fold_lines, openai_line, take_chunk}
use langley.Provider.Usage.Streamed.{
  or_else, last_some, chunk_tokens, tokens_of, no_tokens, openai_chunk_of, parse_sse-openai_tokens,
}
use langley.Provider.{
  openai, anthropic, bedrock, registry, match_domain_suffix, detect_host, detect,
}

program : Unit {0}
unfolding match_domain_suffix detect_host detect to_lower cut_last has_suffix has_prefix beq
program = tt

abbrev host : Bytes
host = codes "API.Anthropic.com:443"

found : detect registry host ≡ some anthropic
unfolding program
found = refl

not_a_subdomain : match_domain_suffix (codes "misanthropic.com") (codes "anthropic.com") ≡ false
unfolding program
not_a_subdomain = refl

regional : detect registry (codes "bedrock-runtime.us-east-1.amazonaws.com") ≡ some bedrock
unfolding program
regional = refl

abbrev one_chunk : Bytes → Option Chunk
one_chunk raw =
    if beq raw (codes "{}")
    then some
        (record { model = codes "m"; usage = some (record { input = pos 3; output = pos 5 }) })
    else none

-- decoders that know one chunk of OpenAI
abbrev one_decoder : Decoders
one_decoder = record {
  anthropic_body = λ raw. none;
  message_start = λ raw. none;
  message_delta = λ raw. none;
  openai_body = λ raw. none;
  openai_chunk = one_chunk;
  gemini_body = λ raw. none;
  gemini_chunk = λ raw. none;
  bedrock_body = λ raw. none;
  claude_body = λ raw. none;
  bedrock_event = λ raw. none;
}

abbrev two_lines : Bytes
two_lines = codes "data: {}" ++ 10 ∷ codes "data: [DONE]"

two_lines_usage :
    tokens_of (parse_sse one_decoder openai two_lines) ≡ record { input = pos 3; output = pos 5 }
unfolding parse_sse split_on fold_lines openai_line take_chunk trim_space trim_prefix has_prefix beq
two_lines_usage = refl

parse_sse-openai_tokens_example :
    tokens_of (parse_sse one_decoder openai two_lines)
    ≡ or_else
        (last_some (λ l. chunk_tokens (openai_chunk_of one_decoder l)) (split_on 10 two_lines))
        no_tokens
parse_sse-openai_tokens_example = parse_sse-openai_tokens one_decoder two_lines
