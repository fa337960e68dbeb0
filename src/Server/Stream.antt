-- ===== src/Server/Stream.antt =====
-- One stream of the gRPC server (server/server.go).
pub mod Access
use toh.Base.{
  Text, text, same, Option, none, some, List, [], ◌∷◌, ◌++◌, Bool, true, false, if◌then◌else◌,
  Result, ok, err,
}
use toh.Spec.Types.{header_handshake_key, header_handshake_net, header_handshake_addr}
use toh.Base.Strings.{to_lower}
use toh.Acl.State.{Acl, AclError}
use toh.Acl.Access.{check}

-- The pairs of a stream's metadata, in order, with names in lower case.
abbrev pub Metadata : Type 0
Metadata = List (Text × Text)

-- `metadata.Get`: the values of a name, which is made lower case first.
unfoldable pub metadata_get : Text → Metadata → List Text
metadata_get name [] = []
metadata_get name ((n, v) ∷ md) =
    let rest = metadata_get name md in if same n (to_lower name) then v ∷ rest else rest

-- What the context of the stream holds: the metadata, and the other end, whose IP address is `none`
-- where it is not a TCP address.
pub record StreamContext : Type 0 where
  pub metadata : Option Metadata
  pub peer : Option (Option Text)

-- The copy that ends first, with its error.
pub data FirstCopy : Type 0 where
  to_remote to_client : Option Text → FirstCopy

-- The world around the handler: dialling gives the text of the remote address.
pub record World : Type 0 where
  pub dial : Text → Text → Result Text Text
  pub send : Text → Option Text
  pub first_copy : FirstCopy

pub data StreamError : Type 0 where
  no_metadata no_client_address : StreamError
  denied : AclError → StreamError
  outside : Text → StreamError

-- How the handler ends.
pub data Served : Type 0 where
  finished : Option StreamError → Served
  panicked : Served

-- What it has done by then.
pub record Trace : Type 0 where
  pub dialled : Option (Text × Text)
  pub sent : Option Text
  pub net_conn_closed : Bool
  pub conn_closed : Bool

abbrev pub idle : Trace
idle = record { dialled = none; sent = none; net_conn_closed = false; conn_closed = false }

unfoldable pub copy_error : FirstCopy → Option StreamError
copy_error (to_remote (some e)) = some (outside (text "Error copying to remote: " ++ e))
copy_error (to_client (some e)) = some (outside (text "Error copying to client: " ++ e))
copy_error _ = none

-- From the dialler on. Both deferred calls run after the first copy has ended.
unfoldable pub serve_conn : World → Text → Text → Served × Trace
unfolding copy_error
serve_conn w network addr = elim (w.dial network addr) [
  | err e ↦ (finished (some (outside e)), record idle { dialled = some (network, addr) })
  | ok remote ↦ elim (w.send remote) [
    | some e ↦ (
      finished (some (outside e)),
      record {
        dialled = some (network, addr);
        sent = none;
        net_conn_closed = true;
        conn_closed = true;
      },
    )
    | none ↦ (
      finished (copy_error w.first_copy),
      record {
        dialled = some (network, addr);
        sent = some remote;
        net_conn_closed = true;
        conn_closed = true;
      },
    )
  ]
]

-- From the three headers on.
unfoldable pub serve_checked :
    Acl → World → Option (Option Text) → Text → Text → Text → Served × Trace
unfolding serve_conn
serve_checked a w (some (some ip)) key network addr = elim (check a key network addr) [
  | some e ↦ (finished (some (denied e)), idle)
  | none ↦ serve_conn w network addr
]
serve_checked a w _ key network addr = (finished (some no_client_address), idle)

-- `metadata.Get(…)[0]` panics where the header is missing.
unfoldable pub serve_headers :
    Acl → World → Option (Option Text) → List Text → List Text → List Text → Served × Trace
unfolding serve_checked
serve_headers a w p (key ∷ _) (network ∷ _) (addr ∷ _) = serve_checked a w p key network addr
serve_headers a w p _ _ _ = (panicked, idle)

unfoldable pub stream_messages : Acl → World → StreamContext → Served × Trace
unfolding serve_headers metadata_get
stream_messages a w c = elim c.metadata [
  | none ↦ (finished (some no_metadata), idle)
  | some md ↦
      serve_headers a w c.peer (metadata_get header_handshake_key md)
        (metadata_get header_handshake_net md) (metadata_get header_handshake_addr md)
]
