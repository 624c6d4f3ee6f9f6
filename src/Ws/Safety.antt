-- ===== src/Ws/Safety.antt =====
-- The channels of the hub of internal/ws/websocket.go are never misused.
use langley.Prelude.{
  ℕ, suc, ◌<◌, ◌≤◌, ◌≡◌, ◌≢◌, refl, Bool, true, false, List, [], ◌∷◌, ◌++◌, Option, none, some,
  ◌>>=◌, Bytes, ltb, ◌==◌, if◌then◌else◌, length, length-append, Bool-cases, inl, inr, arith,
}
use langley.Ws.{
  capacity, Channel, Hub, has, without, put, try_send, close_channel, send_all, new_hub,
  close_client, drop_client, drop_clients, close_clients, enqueue, deliver, Step, handle_message,
  step, run, no_channel,
}

-- an open channel within its capacity
abbrev pub IsOpen : Channel → Type 0
IsOpen ch = (ch.closed ≡ false) × (length ch.buffer ≤ capacity)

-- clients without repetition, below `next`, each with an open channel
abbrev pub AllOpen : (ℕ → Channel) → ℕ → List ℕ → Type 0
AllOpen channels next [] = Unit {0}
AllOpen channels next (c ∷ cs) =
    IsOpen (channels c) × ((c < next) × ((has c cs ≡ false) × AllOpen channels next cs))

AllOpen-at :
    (f : ℕ → Channel) (n c : ℕ) (cs : List ℕ) → AllOpen f n cs → has c cs ≡ true → IsOpen (f c)
unfolding has
AllOpen-at f n c [] a h = absurd (cc h)
AllOpen-at f n c (d ∷ cs) a h = elim (Bool-cases (c == d)) [
  | inl same ↦ let at : c ≡ d = ground arith in rw at a.0
  | inr other ↦ AllOpen-at f n c cs a.1.1.1 (ground (arith, h, other))
]

-- the channels may change where they stay open
AllOpen-change :
    (f g : ℕ → Channel) (n m : ℕ) (cs : List ℕ)
    → n ≤ m
    → ((d : ℕ) → d < n → has d cs ≡ true → IsOpen (f d) → IsOpen (g d))
    → AllOpen f n cs
    → AllOpen g m cs
unfolding has
AllOpen-change f g n m [] h k a = tt
AllOpen-change f g n m (c ∷ cs) h k a = (
  k c a.1.0 (ground arith) a.0,
  (
    omega (arith, a.1.0),
    (a.1.1.0, AllOpen-change f g n m cs h (λ d l e. k d l (ground (arith, e))) a.1.1.1),
  ),
)

has-without : (c d : ℕ) (cs : List ℕ) → has d (without c cs) ≡ true → (c ≢ d) × (has d cs ≡ true)
unfolding has without
has-without c d [] h = absurd (cc h)
has-without c d (e ∷ cs) h = ground (arith, has-without c d cs, h)

AllOpen-without :
    (f : ℕ → Channel) (n c : ℕ) (cs : List ℕ) → AllOpen f n cs → AllOpen f n (without c cs)
unfolding without
AllOpen-without f n c [] a = tt
AllOpen-without f n c (d ∷ cs) a = elim (Bool-cases (c == d)) [
  | inl same ↦ rw same (AllOpen-without f n c cs a.1.1.1)
  | inr other ↦ rw other (a.0, (a.1.0, (absent, AllOpen-without f n c cs a.1.1.1)))
]
  where
    absent : has d (without c cs) ≡ false
    absent = elim (Bool-cases (has d (without c cs))) [
      | inl there ↦ ground (arith, has-without c d cs there, a.1.1.0)
      | inr gone ↦ gone
    ]

try_send_lem :
    (ch : Channel) (message : Bytes)
    → IsOpen ch
    → (sent : Channel) × ((full : Bool) × ((try_send ch message ≡ some (sent, full)) × IsOpen sent))
unfolding try_send
try_send_lem ch message (o, b) = elim (Bool-cases (ltb (length ch.buffer) capacity)) [
  | inl room ↦ (
    record ch { buffer = ch.buffer ++ message ∷ [] },
    (false, (rw (o, room) refl, (o, rw (length-append ch.buffer (message ∷ [])) (ground arith)))),
  )
  | inr full ↦ (ch, (true, (rw (o, full) refl, (o, b))))
]

put-IsOpen :
    (c : ℕ) (ch : Channel) (f : ℕ → Channel) (d : ℕ)
    → IsOpen ch
    → IsOpen (f d)
    → IsOpen (put c ch f d)
unfolding put
put-IsOpen c ch f d o p = elim (Bool-cases (c == d)) [
  | inl same ↦ rw same o
  | inr other ↦ rw other p
]

put-other : (c : ℕ) (ch : Channel) (f : ℕ → Channel) (d : ℕ) → c ≢ d → put c ch f d ≡ f d
unfolding put
put-other c ch f d h = rw (ne_test c d h) refl
  where
    ne_test : (c d : ℕ) → c ≢ d → (c == d) ≡ false
    ne_test c d h = ground (arith, h)

put_self : (c : ℕ) (ch : Channel) (f : ℕ → Channel) → put c ch f c ≡ ch
unfolding put
put_self c ch f = rw (same_test c) refl
  where
    same_test : (n : ℕ) → (n == n) ≡ true
    same_test n = ground arith

fresh : IsOpen no_channel
fresh = (refl, omega arith)

AllOpen-above :
    (f : ℕ → Channel) (n m : ℕ) (cs : List ℕ) → n ≤ m → AllOpen f n cs → has m cs ≡ false
unfolding has
AllOpen-above f n m [] h a = refl
AllOpen-above f n m (c ∷ cs) h a = ground (arith, AllOpen-above f n m cs h a.1.1.1, a.1.0)

-- a writePump that empties a channel leaves all open ones open
drain-IsOpen :
    (c : ℕ) (f : ℕ → Channel) (d : ℕ)
    → IsOpen (f d)
    → IsOpen (put c (record (f c) { buffer = [] }) f d)
unfolding put
drain-IsOpen c f d o = elim (Bool-cases (c == d)) [
  | inl same ↦ let at : c ≡ d = ground arith in rw (same, at) (o.0, omega arith)
  | inr other ↦ rw other o
]

send_all_lem :
    (f : ℕ → Channel) (n : ℕ) (message : Bytes) (cs : List ℕ)
    → AllOpen f n cs
    → (g : ℕ → Channel) × ((slow : List ℕ) × ((send_all f message cs ≡ some (g, slow))
          × ((d : ℕ) → IsOpen (f d) → IsOpen (g d))))
unfolding send_all
send_all_lem f n message [] a = (f, ([], (refl, λ d o. o)))
send_all_lem f n message (c ∷ cs) a =
    let (sent, (full, (e, o))) = try_send_lem (f c) message a.0 in
    let (g, (slow, (runs, kept))) = send_all_lem (put c sent f) n message cs (
      AllOpen-change f (put c sent f) n n cs (omega arith) (λ d l h p. put-IsOpen c sent f d o p)
        a.1.1.1) in
    (
      g,
      (
        if full then c ∷ slow else slow,
        (rw (e, ◌>>=◌, runs) refl, λ d p. kept d (put-IsOpen c sent f d o p)),
      ),
    )

module _ {ℓ} {Message : Type ℓ} where
  abbrev pub IsSafe : Hub Message → Type 0
  IsSafe h = AllOpen h.channels h.next_client h.clients

  -- a result of a step that is safe
  abbrev Runs : Option (Hub Message) → Type ℓ
  Runs r = (g : Hub Message) × ((r ≡ some g) × IsSafe g)

  when : (b : Bool) {x y : Option (Hub Message)} → Runs x → Runs y → Runs (if b then x else y)
  when true r s = r
  when false r s = s

  -- closing a client keeps the others open
  close_client_lem :
      (h : Hub Message) (c : ℕ) (cs : List ℕ)
      → IsOpen (h.channels c)
      → has c cs ≡ false
      → AllOpen h.channels h.next_client cs
      → IsSafe h
      → (g : Hub Message) × ((close_client h c ≡ some g)
          × (IsSafe g × AllOpen g.channels g.next_client cs))
  unfolding close_client close_channel
  close_client_lem h c cs o gone a safe =
      let closed : Channel = record (h.channels c) { closed = true } in
      let keep : (ds : List ℕ)
          → ((d : ℕ) → has d ds ≡ true → c ≢ d)
          → AllOpen h.channels h.next_client ds
          → AllOpen (put c closed h.channels) h.next_client ds =
        λ ds ne b.
          AllOpen-change h.channels (put c closed h.channels) h.next_client h.next_client ds
            (omega arith) (λ d l e p. rw (put-other c closed h.channels d (ne d e)) p) b in
      (
        record h { clients = without c h.clients; channels = put c closed h.channels },
        (
          rw (o.0, ◌>>=◌) refl,
          (
            keep (without c h.clients) (λ d e. (has-without c d h.clients e).0)
                (AllOpen-without h.channels h.next_client c h.clients safe),
            keep cs (λ d e p. cc (gone, e, p)) a,
          ),
        ),
      )

  drop_client_lem : (h : Hub Message) (c : ℕ) → IsSafe h → Runs (drop_client h c)
  unfolding drop_client
  drop_client_lem h c safe = elim (Bool-cases (has c h.clients)) [
    | inl there ↦
        let o = AllOpen-at h.channels h.next_client c h.clients safe there in
        let (g, (e, (safe_g, _))) = close_client_lem h c [] o (unfold has in refl) tt safe in
        (g, (rw there e, safe_g))
    | inr gone ↦ (h, (rw gone refl, safe))
  ]

  drop_clients_lem : (h : Hub Message) (cs : List ℕ) → IsSafe h → Runs (drop_clients h cs)
  unfolding drop_clients
  drop_clients_lem h [] safe = (h, (refl, safe))
  drop_clients_lem h (c ∷ cs) safe =
      let (g, (e, safe_g)) = drop_client_lem h c safe in
      let (k, (runs, safe_k)) = drop_clients_lem g cs safe_g in (k, (rw (e, ◌>>=◌) runs, safe_k))

  close_clients_lem :
      (h : Hub Message) (cs : List ℕ)
      → AllOpen h.channels h.next_client cs
      → IsSafe h
      → Runs (close_clients h cs)
  unfolding close_clients
  close_clients_lem h [] a safe = (h, (refl, safe))
  close_clients_lem h (c ∷ cs) a safe =
      let (g, (e, (safe_g, a_g))) = close_client_lem h c cs a.0 a.1.1.0 a.1.1.1 safe in
      let (k, (runs, safe_k)) = close_clients_lem g cs a_g safe_g in
      (k, (rw (e, ◌>>=◌) runs, safe_k))

  deliver_lem : (h : Hub Message) (message : Bytes) → IsSafe h → Runs (deliver h message)
  unfolding deliver
  deliver_lem h message safe =
      let (g, (slow, (e, kept))) = send_all_lem h.channels h.next_client message h.clients safe in
      let after : Hub Message = record h { channels = g } in
      let (k, (runs, safe_k)) = drop_clients_lem after slow (
        AllOpen-change h.channels g h.next_client h.next_client h.clients (omega arith)
          (λ d l p o. kept d o) safe) in
      (k, (rw (e, ◌>>=◌) runs, safe_k))

  connect-IsSafe :
      (h : Hub Message)
      → IsSafe h
      → IsSafe (record h {
        clients = h.next_client ∷ h.clients;
        channels = put h.next_client no_channel h.channels;
        next_client = suc h.next_client;
      })
  connect-IsSafe h safe = (
    rw (put_self h.next_client no_channel h.channels) fresh,
    (
      omega arith,
      (
        AllOpen-above h.channels h.next_client h.next_client h.clients (omega arith) safe,
        AllOpen-change h.channels (put h.next_client no_channel h.channels) h.next_client
            (suc h.next_client) h.clients (omega arith)
            (λ d l e o. put-IsOpen h.next_client no_channel h.channels d fresh o) safe,
      ),
    ),
  )

  module _ (marshal : Message → Option Bytes) where
    handle_message_lem : (h : Hub Message) → IsSafe h → Runs (handle_message marshal h)
    unfolding handle_message
    handle_message_lem h safe = by_head h.broadcast refl
      where
        by_message :
            (ms : List Message) (o : Option Bytes)
            → Runs (elim o [
              | none ↦ some (record h { broadcast = ms })
              | some message ↦ deliver (record h { broadcast = ms }) message
            ])
        by_message ms none = (record h { broadcast = ms }, (refl, safe))
        by_message ms (some message) = deliver_lem (record h { broadcast = ms }) message safe

        by_head : (ms : List Message) → h.broadcast ≡ ms → Runs (handle_message marshal h)
        by_head [] e = (h, (rw e refl, safe))
        by_head (m ∷ ms) e = rw e (by_message ms (marshal m))

    step_lem : (h : Hub Message) (s : Step Message) → IsSafe h → Runs (step marshal h s)
    unfolding step
    step_lem h (Step.send m) safe = elim (Bool-cases (ltb (length h.broadcast) capacity)) [
      | inl room ↦
          (record h { broadcast = h.broadcast ++ m ∷ [] }, (unfold enqueue in rw room refl, safe))
      | inr full ↦ (h, (unfold enqueue in rw full refl, safe))
    ]
    step_lem h (Step.drain c) safe = (
      _,
      (
        refl,
        AllOpen-change h.channels _ h.next_client h.next_client h.clients (omega arith)
            (λ d l e o. drain-IsOpen c h.channels d o) safe,
      ),
    )
    step_lem h Step.done safe =
        when h.running (close_clients_lem (record h { running = false }) h.clients safe safe)
          (h, (refl, safe))
    step_lem h Step.connect safe =
        when h.running (_, (refl, connect-IsSafe h safe)) (h, (refl, safe))
    step_lem h (Step.unregister c) safe =
        when h.running (drop_client_lem h c safe) (h, (refl, safe))
    step_lem h Step.handle safe = when h.running (handle_message_lem h safe) (h, (refl, safe))

    run_lem : (h : Hub Message) (ss : List (Step Message)) → IsSafe h → Runs (run marshal h ss)
    unfolding run
    run_lem h [] safe = (h, (refl, safe))
    run_lem h (s ∷ ss) safe =
        let (g, (e, safe_g)) = step_lem h s safe in
        let (k, (runs, safe_k)) = run_lem g ss safe_g in (k, (rw (e, ◌>>=◌) runs, safe_k))

    -- From a new hub, any sequence of connections, disconnections, broadcasts, deliveries, client
    -- reads and of the end of Run, in any order, runs without a panic: no channel is closed twice and
    -- nothing is sent on a closed one. At its end the connected clients are distinct, and each of
    -- them has an open channel with at most its capacity waiting in it.
    pub run-IsSafe :
        (ss : List (Step Message))
        → (h : Hub Message) × ((run marshal new_hub ss ≡ some h) × IsSafe h)
    run-IsSafe ss = run_lem new_hub ss tt
