-- ===== src/Command/Tests.antt =====
-- The environment of a command for one parent's environment.
use langley.Prelude.{◌≡◌, refl, List, [], ◌∷◌, ◌++◌, Bytes, codes, beq, some}
use langley.Go.Strings.{cut, to_upper, to_upper_byte}
use langley.Config.{missing}
use langley.Command.{
  ServerState, not_running, read_state, is_override, is_key, key_of, keep_others, build,
}
use langley.Command.Environment.{Keeps, settings, build_lem}

abbrev address : Bytes
address = codes "localhost:9090"

abbrev ca_file : Bytes
ca_file = codes "/root/ca.crt"

-- a parent that has a proxy of its own, in an unusual case
abbrev parent : List Bytes
parent = codes "HOME=/root" ∷ codes "Https_Proxy=http://old" ∷ codes "TERM=xterm" ∷ []

parent_kept :
    keep_others to_upper address ca_file parent ≡ codes "HOME=/root" ∷ codes "TERM=xterm" ∷ []
unfolding keep_others is_override is_key key_of cut to_upper to_upper_byte beq
parent_kept = refl

-- the letters of the names are ASCII
build_lem_example :
    (kept : List Bytes) × (Keeps to_upper parent kept
      × (build to_upper parent address ca_file ≡ kept ++ settings address ca_file))
build_lem_example = build_lem to_upper address ca_file parent

abbrev empty_state : ServerState
empty_state = record { proxy_addr = []; api_addr = []; ca_path = []; pid = 0; started_at = 0 }

-- a state file that is not there, and one without addresses
nothing_read : read_state (λ text. some empty_state) missing ≡ not_running
unfolding read_state
nothing_read = refl
