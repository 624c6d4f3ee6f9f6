-- ===== src/Ws/Tests.antt =====
-- A run of the hub of internal/ws/websocket.go.
use langley.Prelude.{◌≡◌, List, [], ◌∷◌, Option, some, Bytes, codes}
use langley.Ws.{Hub, new_hub, Step, run}
use langley.Ws.Safety.{IsSafe, run-IsSafe}

abbrev encode : Bytes → Option Bytes
encode m = some m

-- two clients, one of which leaves twice while a message waits, and the end
abbrev session : List (Step Bytes)
session =
    Step.connect
    ∷ Step.connect
    ∷ Step.send (codes "ping")
    ∷ Step.unregister 0
    ∷ Step.handle
    ∷ Step.unregister 0
    ∷ Step.drain 1
    ∷ Step.done
    ∷ []

run-IsSafe_example : (h : Hub Bytes) × ((run encode new_hub session ≡ some h) × IsSafe h)
run-IsSafe_example = run-IsSafe encode session
