-- ===== src/Parser/Sse/Sent.antt =====
-- What Parse of internal/parser/sse.go sends: numbered events, with their priorities, up to the
-- limit.
use langley.Prelude.{
  ℕ, ◌+◌, ◌≤◌, ◌<◌, ◌≡◌, ◌≢◌, refl, Bool, true, false, List, [], ◌∷◌, ◌++◌, Option, none, some,
  Bytes, ltb→lt, ◌⊎◌, if◌then◌else◌, ◌>>=◌, ltb, leb, length, length-append, Bool-cases, inl, inr,
  arith,
}
use mathlib.Core.List.{append-nil, Memᴰ}
use langley.Parser.Sse.Data.{size_of, AllData, read_line-size, read_line-AllData}
use langley.Parser.Json.{Members}
use langley.Parser.Sse.{
  SseParser, Event, Pending, Parsed, sends, nothing_pending, priority_of, mark_truncated,
  event_data_of, emit_event, end_event, parse_lines, parse, join_lines, max_events_per_flow,
  read_line,
}

-- numbered on from `n`, each with the flow's id, a type and the type's priority
abbrev pub Numbered : Bytes → ℕ → List Event → Type 0
Numbered flow n [] = Unit {0}
Numbered flow n (e ∷ es) =
    ((e.flow_id ≡ flow)
      × ((e.sequence ≡ n + 1) × ((e.event_type ≢ []) × (e.priority ≡ priority_of e.event_type))))
    × Numbered flow (n + 1) es

module _ (unmarshal : Bytes → Option (Option Members)) where
  -- data of the lines that are together decoded to a nil map, as "null" is
  abbrev pub GivesNil : List Bytes → Type 0
  GivesNil whole = (ds : List Bytes) × (AllData whole ds × (unmarshal (join_lines ds) ≡ some none))

  marked_lem :
      (t : Bool) (raw : Bytes)
      → ((m : Option Members) × (mark_truncated t (event_data_of raw (unmarshal raw)) ≡ some m))
        ⊎ ((t ≡ true)
            × ((unmarshal raw ≡ some none)
                × (mark_truncated t (event_data_of raw (unmarshal raw)) ≡ none)))
  unfolding mark_truncated event_data_of
  marked_lem t raw = by_decoded (unmarshal raw) t
    where
      by_decoded :
          (d : Option (Option Members)) (u : Bool)
          → ((m : Option Members) × (mark_truncated u (event_data_of raw d) ≡ some m))
            ⊎ ((u ≡ true) × ((d ≡ some none) × (mark_truncated u (event_data_of raw d) ≡ none)))
      by_decoded none true = inl (_, refl)
      by_decoded none false = inl (_, refl)
      by_decoded (some none) true = inr (refl, (refl, refl))
      by_decoded (some none) false = inl (_, refl)
      by_decoded (some (some m)) true = inl (_, refl)
      by_decoded (some (some m)) false = inl (_, refl)

  -- an end of event that has sent `out`
  record Ended (p : SseParser) (s : Pending) : Type 0 where
    q : SseParser
    out : List Event
    runs : end_event unmarshal p s ≡ some (q, out)
    flow : q.flow_id ≡ p.flow_id
    sent :
        (es : List Event)
        → Numbered p.flow_id q.sequence es
        → Numbered p.flow_id p.sequence (out ++ es)
    one : length out ≤ 1

  -- the panic of an end of event
  abbrev Panics : SseParser → Pending → Type 0
  Panics p s =
      (end_event unmarshal p s ≡ none)
      × ((unmarshal (join_lines s.data_lines) ≡ some none) × (2_097_152 < s.accumulated_size))

  end_event_lem : (p : SseParser) (s : Pending) → Ended p s ⊎ Panics p s
  unfolding end_event emit_event
  end_event_lem p s = by_type s.event_type refl s.data_lines refl
    where
      by_type :
          (t : Bytes)
          → s.event_type ≡ t
          → (ls : List Bytes) → s.data_lines ≡ ls
          → Ended p s ⊎ Panics p s
      by_type [] et ls el = inl (record {
        q = p;
        out = [];
        runs = rw et refl;
        flow = refl;
        sent = λ es h. h;
        one = omega arith;
      })
      by_type (c ∷ t) et [] el = inl (record {
        q = p;
        out = [];
        runs = rw (et, el) refl;
        flow = refl;
        sent = λ es h. h;
        one = omega arith;
      })
      by_type (c ∷ t) et (l ∷ ls) el =
          elim (marked_lem (ltb 2_097_152 s.accumulated_size) (join_lines (l ∷ ls))) [
            | inl (m, em) ↦
                let event : Event = record {
                  flow_id = p.flow_id;
                  sequence = p.sequence + 1;
                  event_type = c ∷ t;
                  event_data = m;
                  priority = priority_of (c ∷ t);
                } in
                inl (record {
                  q = record p { sequence = p.sequence + 1 };
                  out = event ∷ [];
                  runs = rw (et, el, em) refl;
                  flow = refl;
                  sent = λ es h. ((refl, (refl, ((λ e. cc e), refl))), h);
                  one = omega arith;
                })
            | inr (long, (nil, none_of)) ↦
                inr
                  (rw (et, el, none_of) refl, (rw el nil, ltb→lt 2_097_152 s.accumulated_size long))
          ]

  -- a run of the loop, from a count below the limit
  record Ran (p : SseParser) (s : Pending) (count : ℕ) (lines : List Bytes) : Type 0 where
    result : Parsed
    runs : parse_lines unmarshal p s count lines ≡ some result
    sent : Numbered p.flow_id p.sequence result.events
    bound : count + length result.events ≤ max_events_per_flow

  -- a run that panics, over more than two megabytes
  abbrev Fails : List Bytes → SseParser → Pending → ℕ → List Bytes → Type 0
  Fails whole p s count lines =
      (parse_lines unmarshal p s count lines ≡ none)
      × (GivesNil whole × (2_097_152 < s.accumulated_size + size_of lines))

  -- the rest of some lines
  abbrev IsRest : List Bytes → List Bytes → Type 0
  IsRest whole lines = (l : Bytes) → Memᴰ l lines → Memᴰ l whole

  parse_lines_lem :
      (whole : List Bytes) (p : SseParser) (s : Pending) (count : ℕ) (lines : List Bytes)
      → IsRest whole lines
      → AllData whole s.data_lines
      → count < max_events_per_flow
      → Ran p s count lines ⊎ Fails whole p s count lines
  unfolding parse_lines size_of
  parse_lines_lem whole p s count [] sub all h = elim (end_event_lem p s) [
    | inr (fails, (nil, long)) ↦
        inr (rw fails refl, ((s.data_lines, (all, nil)), omega (arith, long)))
    | inl e ↦ inl (record {
      result = record { events = e.out; limited = false };
      runs = rw e.runs refl;
      sent = rw append-nil at (e.sent [] tt);
      bound = omega (arith, e.one);
    })
  ]
  parse_lines_lem whole p s count ((c ∷ line) ∷ lines) sub all h =
      let here = sub (c ∷ line) (Memᴰ.head refl) in
      elim (parse_lines_lem whole p (read_line s (c ∷ line)) count lines
        (λ l m. sub l (Memᴰ.tail m)) (read_line-AllData whole s (c ∷ line) all here) h) [
          | inl r ↦
              inl (record { result = r.result; runs = r.runs; sent = r.sent; bound = r.bound })
          | inr (fails, (nil, long)) ↦
              inr (fails, (nil, omega (arith, long, read_line-size s (c ∷ line))))
        ]
  parse_lines_lem whole p s count ([] ∷ lines) sub all h = elim (end_event_lem p s) [
    | inr (fails, (nil, long)) ↦
        inr (rw fails refl, ((s.data_lines, (all, nil)), omega (arith, long)))
    | inl e ↦ elim (Bool-cases (leb max_events_per_flow (count + length e.out))) [
      | inl full ↦ inl (record {
        result = record { events = e.out; limited = true };
        runs = rw (e.runs, ◌>>=◌, full) refl;
        sent = rw append-nil at (e.sent [] tt);
        bound = omega (arith, e.one);
      })
      | inr more ↦
          elim (parse_lines_lem whole e.q nothing_pending (count + length e.out) lines
            (λ l m. sub l (Memᴰ.tail m)) tt (ground arith)) [
              | inl r ↦ inl (record {
                result = sends e.out r.result;
                runs = rw (e.runs, ◌>>=◌, more, r.runs) refl;
                sent = e.sent _ (rw e.flow at r.sent);
                bound = rw (length-append e.out r.result.events) (omega (arith, r.bound));
              })
              | inr (fails, (nil, long)) ↦
                  inr (rw (e.runs, ◌>>=◌, more, fails) refl, (nil, omega (arith, long)))
            ]
    ]
  ]

  -- Parse either sends at most maxEventsPerFlow events, numbered without a gap from the parser's sequence,
  -- each with the parser's flow id, an event type that is not empty and the priority of this type; or it
  -- panics, and then the decoder gives a nil map for the joined data of some of the lines, and all lines
  -- are together longer than two megabytes.
  pub parse-Numbered {ℓ} :
      {E : Type ℓ} (p : SseParser) (lines : List Bytes) (err : Option E)
      → ((events : List Event) × ((reported : Option E) × ((parse unmarshal p lines err
                ≡ some (events, reported))
              × (Numbered p.flow_id p.sequence events × (length events ≤ max_events_per_flow)))))
        ⊎ ((parse unmarshal p lines err ≡ none) × (GivesNil lines × (2_097_152 < size_of lines)))
  unfolding parse
  parse-Numbered p lines err =
      elim (parse_lines_lem lines p nothing_pending 0 lines (λ l m. m) tt (omega arith)) [
        | inl r ↦ inl (
          r.result.events,
          (
            if r.result.limited then none else err,
            (rw (r.runs, ◌>>=◌) refl, (r.sent, omega (arith, r.bound))),
          ),
        )
        | inr (fails, (nil, long)) ↦ inr (rw (fails, ◌>>=◌) refl, (nil, omega (arith, long)))
      ]
