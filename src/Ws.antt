-- ===== src/Ws.antt =====
-- Hub of internal/ws/websocket.go. A client is the number of its allocation. The two ways to
-- misuse a channel, a send on a closed one and a second close, panic: `none`. Each case of the
-- select in Run is one step; Broadcast and a client's own pumps are steps between them. A map is
-- walked in the order of its list. The data of a message is what json.Marshal makes of it.
pub mod Safety
mod Tests
use langley.Prelude.{
  ℕ, suc, ◌+◌, Bool, true, false, not, ◌&&◌, ◌||◌, List, [], ◌∷◌, ◌++◌, Option, none, some, ◌>>=◌,
  Bytes, codes, ltb, ◌==◌, if◌then◌else◌, length,
}
use langley.Go.Strings.{has_prefix}

-- the capacity of a client's channel, and of the hub's
abbrev pub capacity : ℕ
capacity = 256

pub record Channel : Type 0 where
  pub buffer : List Bytes
  pub closed : Bool

pub record Hub {ℓ} (Message : Type ℓ) : Type ℓ where
  pub clients : List ℕ
  pub channels : ℕ → Channel
  pub next_client : ℕ
  pub broadcast : List Message
  pub running : Bool

abbrev pub no_channel : Channel
no_channel = record { buffer = []; closed = false }

unfoldable pub has : ℕ → List ℕ → Bool
has c [] = false
has c (d ∷ ds) = c == d || has c ds

-- delete(h.clients, c)
unfoldable pub without : ℕ → List ℕ → List ℕ
without c [] = []
without c (d ∷ ds) = if c == d then without c ds else d ∷ without c ds

unfoldable pub put : ℕ → Channel → (ℕ → Channel) → ℕ → Channel
put c ch channels d = if c == d then ch else channels d

-- the select with a default: the channel, and whether it was full
unfoldable pub try_send : Channel → Bytes → Option (Channel × Bool)
try_send ch message =
    if ch.closed
    then none
    else if ltb (length ch.buffer) capacity
    then some (record ch { buffer = ch.buffer ++ message ∷ [] }, false)
    else some (ch, true)

unfoldable pub close_channel : Channel → Option Channel
close_channel ch = if ch.closed then none else some (record ch { closed = true })

-- a message to every client: the channels, and the clients to remove
unfoldable pub send_all : (ℕ → Channel) → Bytes → List ℕ → Option ((ℕ → Channel) × List ℕ)
send_all channels message [] = some (channels, [])
send_all channels message (c ∷ cs) = do
  (ch, full) ← try_send (channels c) message
  (rest, to_remove) ← send_all (put c ch channels) message cs
  some (rest, if full then c ∷ to_remove else to_remove)

-- isLocalhostOrigin
unfoldable pub is_localhost_origin : Bytes → Bool
is_localhost_origin origin =
    has_prefix origin (codes "http://localhost")
    || has_prefix origin (codes "http://127.0.0.1")
    || has_prefix origin (codes "https://localhost")
    || has_prefix origin (codes "https://127.0.0.1")

pub data Step {ℓ} (Message : Type ℓ) : Type ℓ where
  done : Step Message
  connect : Step Message
  unregister : ℕ → Step Message
  send : Message → Step Message
  handle : Step Message
  drain : ℕ → Step Message

module _ {ℓ} {Message : Type ℓ} where
  abbrev pub new_hub : Hub Message
  new_hub = record {
    clients = [];
    channels = λ c. no_channel;
    next_client = 0;
    broadcast = [];
    running = true;
  }

  -- close and delete one client
  unfoldable pub close_client : Hub Message → ℕ → Option (Hub Message)
  close_client h c = do
    ch ← close_channel (h.channels c)
    some (record h { clients = without c h.clients; channels = put c ch h.channels })

  -- close and delete a client that is still there
  unfoldable pub drop_client : Hub Message → ℕ → Option (Hub Message)
  drop_client h c = if has c h.clients then close_client h c else some h

  unfoldable pub drop_clients : Hub Message → List ℕ → Option (Hub Message)
  drop_clients h [] = some h
  drop_clients h (c ∷ cs) = drop_client h c >>= λ g. drop_clients g cs

  -- ctx.Done: every client, without a test
  unfoldable pub close_clients : Hub Message → List ℕ → Option (Hub Message)
  close_clients h [] = some h
  close_clients h (c ∷ cs) = close_client h c >>= λ g. close_clients g cs

  -- Broadcast: a full channel drops the message
  unfoldable pub enqueue : Hub Message → Message → Hub Message
  enqueue h m =
      if ltb (length h.broadcast) capacity
      then record h { broadcast = h.broadcast ++ m ∷ [] }
      else h

  -- the case of a message in Run
  unfoldable pub deliver : Hub Message → Bytes → Option (Hub Message)
  deliver h message = do
    (channels, to_remove) ← send_all h.channels message h.clients
    drop_clients (record h { channels = channels }) to_remove

  module _ (marshal : Message → Option Bytes) where
    -- the message at the head of the channel; one that cannot be encoded is logged
    unfoldable pub handle_message : Hub Message → Option (Hub Message)
    handle_message h = elim h.broadcast [
      | [] ↦ some h
      | m ∷ ms ↦ elim (marshal m) [
        | none ↦ some (record h { broadcast = ms })
        | some message ↦ deliver (record h { broadcast = ms }) message
      ]
    ]

    -- the cases of Run, which ends at `done`; `send` is Broadcast, `drain` a writePump that takes
    -- all that waits for its client
    unfoldable pub step : Hub Message → Step Message → Option (Hub Message)
    step h (send m) = some (enqueue h m)
    step h (drain c) =
        some (record h { channels = put c (record (h.channels c) { buffer = [] }) h.channels })
    step h done =
        if h.running then close_clients (record h { running = false }) h.clients else some h
    step h connect =
        if h.running
        then some (record h {
          clients = h.next_client ∷ h.clients;
          channels = put h.next_client no_channel h.channels;
          next_client = suc h.next_client;
        })
        else some h
    step h (unregister c) = if h.running then drop_client h c else some h
    step h handle = if h.running then handle_message h else some h

    unfoldable pub run : Hub Message → List (Step Message) → Option (Hub Message)
    run h [] = some h
    run h (s ∷ ss) = step h s >>= λ g. run g ss
