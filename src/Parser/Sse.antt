-- ===== src/Parser/Sse.antt =====
-- SSEParser of internal/parser/sse.go. `unmarshal` is json.Unmarshal into a map: `none` is an
-- error, `some none` a nil map. The lines are those that bufio.Scanner gives within its limit of
-- maxLineSize, with the error it ends in. Only Parse itself closes doneCh, at its end, so every
-- event is sent. The event's UUID, its time stamps and the warnings are left out.
pub mod Data
pub mod Sent
use langley.Prelude.{
  ℕ, ◌+◌, ◌*◌, Bool, true, false, not, ◌&&◌, String, List, [], ◌∷◌, ◌++◌, Option, none, some, ◌>>=◌,
  Bytes, codes, Dict, lookup, ltb, leb, if◌then◌else◌, length, drop,
}
use langley.Queue.{priority_high, priority_medium, priority_low}
use langley.Go.Strings.{has_prefix, trim_prefix, trim_space}
use langley.Parser.Json.{Json, boolean, text, Members, no_members, member, set_field}

abbrev pub event_priorities : Dict String
event_priorities =
    (codes "message_start", priority_high)
    ∷ (codes "message_stop", priority_high)
    ∷ (codes "message_delta", priority_high)
    ∷ (codes "error", priority_high)
    ∷ (codes "content_block_start", priority_medium)
    ∷ (codes "content_block_stop", priority_medium)
    ∷ (codes "ping", priority_medium)
    ∷ (codes "content_block_delta", priority_low)
    ∷ []

abbrev pub max_event_data_size : ℕ
max_event_data_size = 2 * 1024 * 1024

abbrev pub max_events_per_flow : ℕ
max_events_per_flow = 10000

pub record SseParser : Type 0 where
  pub flow_id : Bytes
  pub sequence : ℕ

abbrev pub new_sse_parser : Bytes → SseParser
new_sse_parser flow_id = record { flow_id = flow_id; sequence = 0 }

-- store.Event; `none` in event_data is a nil map
pub record Event : Type 0 where
  pub flow_id : Bytes
  pub sequence : ℕ
  pub event_type : Bytes
  pub event_data : Option Members
  pub priority : String

-- the priority of an event type
unfoldable pub priority_of : Bytes → String
priority_of event_type = elim (lookup event_type event_priorities) [
  | some priority ↦ priority
  | none ↦ priority_medium
]

-- eventData["_truncated"] = true panics on a nil map
unfoldable pub mark_truncated : Bool → Option Members → Option (Option Members)
mark_truncated false m = some m
mark_truncated true none = none
mark_truncated true (some m) = some (some (set_field (codes "_truncated") (boolean true) m))

-- strings.Join(lines, "\n")
unfoldable pub join_lines : List Bytes → Bytes
join_lines [] = []
join_lines (l ∷ []) = l
join_lines (l ∷ m ∷ ls) = l ++ 10 ∷ join_lines (m ∷ ls)

-- the variables of the loop of Parse, but for the count
pub record Pending : Type 0 where
  pub event_type : Bytes
  pub data_lines : List Bytes
  pub accumulated_size : ℕ

abbrev pub nothing_pending : Pending
nothing_pending = record { event_type = []; data_lines = []; accumulated_size = 0 }

-- a line that is not empty
unfoldable pub read_line : Pending → Bytes → Pending
read_line s line =
    if has_prefix line (codes "event:")
    then record s { event_type = trim_space (trim_prefix line (codes "event:")) }
    else if has_prefix line (codes "data:")
    then record s {
      data_lines =
          if ltb s.accumulated_size max_event_data_size
          then s.data_lines ++ trim_prefix line (codes "data:") ∷ []
          else s.data_lines;
      accumulated_size = s.accumulated_size + (length (trim_prefix line (codes "data:")) + 1);
    }
    else s

-- what Parse sends, and whether it stopped at the limit of events
pub record Parsed : Type 0 where
  pub events : List Event
  pub limited : Bool

abbrev pub sends : List Event → Parsed → Parsed
sends out r = record r { events = out ++ r.events }

-- the error of a json.Unmarshal keeps the raw text
unfoldable pub event_data_of : Bytes → Option (Option Members) → Option Members
event_data_of raw none = some (member (codes "raw") (text raw) no_members)
event_data_of raw (some m) = m

module _ (unmarshal : Bytes → Option (Option Members)) where
  -- emitEvent; `none` is a panic
  unfoldable pub emit_event : SseParser → Bytes → Bytes → Bool → Option (SseParser × Event)
  emit_event p event_type raw truncated = do
    event_data ← mark_truncated truncated (event_data_of raw (unmarshal raw))
    let event : Event = record {
      flow_id = p.flow_id;
      sequence = p.sequence + 1;
      event_type = event_type;
      event_data = event_data;
      priority = priority_of event_type;
    }
    some (record p { sequence = p.sequence + 1 }, event)

  -- the end of an event: it is sent if it has a type and data
  unfoldable pub end_event : SseParser → Pending → Option (SseParser × List Event)
  end_event p s = elim s.event_type [
    | [] ↦ some (p, [])
    | c ∷ kind ↦ elim s.data_lines [
      | [] ↦ some (p, [])
      | l ∷ ls ↦ do
        (q, event) ←
            emit_event p (c ∷ kind) (join_lines (l ∷ ls))
              (ltb max_event_data_size s.accumulated_size)
        some (q, event ∷ [])
    ]
  ]

  unfoldable pub parse_lines : SseParser → Pending → ℕ → List Bytes → Option Parsed
  parse_lines p s count [] = do
    (_, out) ← end_event p s
    some (record { events = out; limited = false })
  parse_lines p s count ([] ∷ lines) = do
    (q, out) ← end_event p s
    elim (leb max_events_per_flow (count + length out)) [
      | true ↦ some (record { events = out; limited = true })
      | false ↦ do
        rest ← parse_lines q nothing_pending (count + length out) lines
        some (sends out rest)
    ]
  parse_lines p s count ((c ∷ line) ∷ lines) = parse_lines p (read_line s (c ∷ line)) count lines

  -- Parse: the events sent, and the scanner's error unless it stopped before the end
  unfoldable pub parse {ℓ} :
      {E : Type ℓ} → SseParser → List Bytes → Option E → Option (List Event × Option E)
  parse p lines err = do
    r ← parse_lines p nothing_pending 0 lines
    some (r.events, if r.limited then none else err)
