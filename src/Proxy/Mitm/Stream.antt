-- ===== src/Proxy/Mitm/Stream.antt =====
-- streamSSEWithParser of internal/proxy/mitm.go: io.Copy into io.MultiWriter(client, capture, pipe),
-- with the SSE parser at the other end of the pipe. The parser takes a write whole; once it has
-- stopped, nobody reads the pipe, and the next write to it waits for ever.
use langley.Prelude.{
  ℕ, ◌*◌, Bool, true, false, ◌||◌, List, [], ◌∷◌, ◌++◌, Option, none, some, ◌>>=◌, Bytes, ◌==◌,
  if◌then◌else◌, length,
}
use langley.Go.Scanner.{scan_lines}
use langley.Parser.Json.{Members}
use langley.Parser.Sse.{Event, new_sse_parser, nothing_pending, parse_lines, parse}
use langley.Parser.Claude.{extract_tool_uses}
use langley.Proxy.Capture.{LimitedBuffer, write}
use langley.Proxy.Mitm.{
  Packages, MitmProxy, Effect, save_event, on_event, stored, save_tool_invocations,
}

abbrev pub max_line_size : ℕ
max_line_size = 1024 * 1024

-- the parser has returned before the end of the stream: at the limit of events, or at a line that
-- is too long. `none` is a panic.
unfoldable pub has_stopped : (Bytes → Option (Option Members)) → Bytes → Bytes → Option Bool
has_stopped unmarshal flow_id piped =
    let (lines, too_long) = scan_lines max_line_size false piped in
    do
      parsed ← parse_lines unmarshal (new_sse_parser flow_id) nothing_pending 0 lines
      some (parsed.limited || too_long)

-- the writes to the client, what went through the pipe, the capture, and how the copy ended
pub record Stream : Type 0 where
  pub writes : List Bytes
  pub piped : Bytes
  pub capture : LimitedBuffer
  pub failed : Bool
  pub blocked : Bool

-- a write to the pipe waits if the parser has stopped, and the stream goes on otherwise
abbrev pub unless_stopped : Option Bool → Stream → Option Stream → Option Stream
unless_stopped none waiting rest = none
unless_stopped (some true) waiting rest = some waiting
unless_stopped (some false) waiting rest = rest

unfoldable pub stream_chunks :
    (Bytes → Option Bool) → List Bytes → Bytes → LimitedBuffer → List Bytes → Option Stream
stream_chunks stops writes piped l [] =
    some (record { writes = writes; piped = piped; capture = l; failed = false; blocked = false })
stream_chunks stops writes piped l ([] ∷ ps) = stream_chunks stops writes piped l ps
stream_chunks stops writes piped l ((c ∷ p) ∷ ps) =
    let (m, n) = write l (c ∷ p) in
    let sent = writes ++ (c ∷ p) ∷ [] in
    let rest = stream_chunks stops sent (piped ++ c ∷ p) m ps in
    if n == length (c ∷ p)
    then unless_stopped (stops piped)
        (record { writes = sent; piped = piped; capture = m; failed = false; blocked = true }) rest
    else some (record { writes = sent; piped = piped; capture = m; failed = true; blocked = false })

-- each event is saved and then told
unfoldable pub event_effects : MitmProxy → List Event → List Effect
event_effects p [] = []
event_effects p (e ∷ es) = stored p (save_event e) ++ on_event e ∷ event_effects p es

-- bufio.ErrTooLong
pub data ScanError : Type 0 where
  token_too_long : ScanError

abbrev pub scan_error : Bool → Option ScanError
scan_error too_long = if too_long then some token_too_long else none

-- the stream, and the effects of its events and of its tool calls. While the copy waits on the pipe
-- the calls are not saved. `none` is a panic.
unfoldable pub stream_sse_with_parser :
    Packages
    → MitmProxy
    → ℕ
    → Bytes
    → Option Bytes
    → LimitedBuffer
    → List Bytes
    → Option (Stream × List Effect)
unfolding has_stopped event_effects
stream_sse_with_parser pkg p now flow_id task_id capture chunks = do
  s ← stream_chunks (has_stopped pkg.unmarshal flow_id) [] [] capture chunks
  (events, err) ←
      parse pkg.unmarshal (new_sse_parser flow_id) (scan_lines max_line_size true s.piped).0
        (scan_error (scan_lines max_line_size true s.piped).1)
  tools ← extract_tool_uses pkg.unmarshal events
  some (
    s,
    event_effects p events
        ++ (if s.blocked then [] else save_tool_invocations pkg p now flow_id task_id tools),
  )
