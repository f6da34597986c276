-- ===== src/Daemon/Transparent.antt =====
-- cmd/sshcustomd/transparent.go: the handling of a redirected connection. Reading the original
-- destination, and Go's parsing of an address, are arguments.
use ssc.Base.{ℕ, Bool, true, false, List, [], ◌∷◌, ◌++◌, Option, none, some, Bytes, if◌then◌else◌}
use ssc.Tunnel.{Dial, connected, refused_with, dial_stream_with_retry, is_transport_error}

-- `maxTransparentConns`
abbrev pub max_transparent_conns : ℕ
max_transparent_conns = 2048

-- What the handling of a connection does, in order; `local` is the redirected connection.
pub data Act : Type 0 where
  take_slot free_slot set_options count_error copy : Act
  -- the dial of a target, with whether it connects
  dial : Bytes → Bool → Act
  close_local close_remote : Act
  add_stream remove_stream : Act

-- What the code asks for: the free slot, whether the connection is one of TCP, its destination,
-- whether it is local, whether there is a client before and after the dial, and how the dials end.
pub record Asked : Type 0 where
  pub slot : Bool
  pub is_tcp : Bool
  pub target : Option Bytes
  pub is_local : Bytes → Bool
  pub client : Bool
  pub net : ℕ → Dial
  pub client_after : Bool

-- `tunnel.PipeBoth`, which closes both connections when the copying ends
abbrev pub piped : List Act
piped = copy ∷ close_local ∷ close_remote ∷ []

-- with the remote connection, and the deferred calls
abbrev pub with_remote : Bool → List Act
with_remote false = close_remote ∷ []
with_remote true = add_stream ∷ piped ++ remove_stream ∷ close_remote ∷ []

abbrev pub dialling : Bytes → Dial → Bool → List Act
dialling target (connected c) client_after = dial target true ∷ with_remote client_after
dialling target (refused_with e) client_after =
    dial target false ∷ (if is_transport_error (some e) then count_error ∷ [] else [])

abbrev pub to_target : Asked → Bytes → List Act
to_target a target =
    if a.is_local target
    then []
    else set_options
      ∷ (if a.client
          then dialling target (dial_stream_with_retry a.net).outcome a.client_after
          else [])

-- with a slot, up to the deferred calls
abbrev pub in_slot : Asked → Option Bytes → List Act
in_slot a none = []
in_slot a (some target) = to_target a target

-- `handleTransparentConn`
unfoldable pub handle_transparent_conn : Asked → List Act
unfolding dial_stream_with_retry is_transport_error
handle_transparent_conn a =
    (if a.slot
      then take_slot ∷ (if a.is_tcp then in_slot a a.target else []) ++ free_slot ∷ []
      else [])
    ++ close_local ∷ []
