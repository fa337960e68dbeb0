-- ===== src/Examples/Tunnel.antt =====
-- The theorems on server/server.go and client/client.go at a server with two users.
use toh.Base.{
  Text, Text-discrete, text, ◌≡◌, ◌↔◌, refl, List, arith, true, false, none, some, [], ◌∷◌, ok,
}
use toh.Acl.Access.{is_admin_access, admin_enabled, check}
use toh.Server.Stream.{
  Metadata, metadata_get, StreamContext, World, to_remote, panicked, serve_conn, serve_checked,
  serve_headers, stream_messages,
}
use toh.Server.Stream.Access.{Requests, Lacks, stream_messages_dials, stream_messages_panics}
use toh.Client.{tcp_or_udp, dial_context}
use toh.Client.Reach.{opened, first_message, IsOk, Reaches, dial_context_iff}
use toh.Base.Dict.{lookup}
use toh.Acl.Access.Policy.{Permits}
use toh.Acl.Quota.Bounds.{MayReceive, MaySend}
use toh.Server.Stats.{TrafficEvent, run_traffic_event_consume_loop}
use toh.Server.Stats.Accounting.{Stands}
use toh.Client.Traffic.{total, dial_context-charged}
use toh.Examples.Keys.{two_users-IsSound}
use toh.Examples.Data.{alice_key, two_users, used_cells}

abbrev web : Metadata
web =
    (text "x-toh-key", text "root")
    ∷ (text "x-toh-net", text "tcp")
    ∷ (text "x-toh-addr", text "a.org:80")
    ∷ []

abbrev from_localhost : Metadata → StreamContext
from_localhost md = record { metadata = some md; peer = some (some (text "127.0.0.1")) }

abbrev open_world : World
open_world = record {
  dial = λ network addr. ok (text "10.0.0.1:80");
  send = λ m. none;
  first_copy = to_remote none;
}

web_dialled :
    (stream_messages two_users open_world (from_localhost web)).1.dialled
    ≡ some (text "tcp", text "a.org:80")
unfolding stream_messages serve_headers serve_checked serve_conn metadata_get check is_admin_access
    admin_enabled Text-discrete
web_dialled = refl

stream_messages_dials_example :
    (key : Text) × Requests (from_localhost web) key (text "tcp") (text "a.org:80")
    × (check two_users key (text "tcp") (text "a.org:80") ≡ none)
stream_messages_dials_example =
    stream_messages_dials two_users open_world (from_localhost web) (text "tcp") (text "a.org:80")
      web_dialled

-- Metadata without a single header.
stream_messages_panics_example :
    ((stream_messages two_users open_world (from_localhost [])).0 ≡ panicked) ↔ Lacks []
stream_messages_panics_example =
    stream_messages_panics two_users open_world (from_localhost []) [] refl

dial_context_iff_example :
    IsOk (
      dial_context
        (opened two_users open_world (text "127.0.0.1"))
        first_message
        (text "root")
        (text "tcp")
        (text "a.org:80"))
    ↔ ((tcp_or_udp (text "tcp") ≡ true)
        × (check two_users (text "root") (text "tcp") (text "a.org:80") ≡ none)
        × Reaches open_world (text "tcp") (text "a.org:80"))
dial_context_iff_example =
    dial_context_iff two_users open_world (text "127.0.0.1") (text "root") (text "tcp")
      (text "a.org:80")

-- The first user receives 400 bytes more, and sends 50.
abbrev traffic : List TrafficEvent
traffic =
    record { key = text "alice"; client_ip = []; network = []; in_bytes = 400; out_bytes = 0 }
    ∷ record { key = text "alice"; client_ip = []; network = []; in_bytes = 0; out_bytes = 50 }
    ∷ []

alice-Stands : Stands (text "alice") alice_key (used_cells 0) two_users
unfolding lookup Text-discrete
alice-Stands = (refl, refl)

alice_is_no_admin : is_admin_access two_users (text "alice") ≡ false
unfolding is_admin_access admin_enabled Text-discrete
alice_is_no_admin = refl

dial_context-charged_example :
    let u = total (text "alice") alice_key traffic two_users (used_cells 0) in
    IsOk (
      dial_context
        (opened (run_traffic_event_consume_loop traffic two_users) open_world (text "127.0.0.1"))
        first_message
        (text "alice")
        (text "tcp")
        (text "a.org"))
    ↔ ((tcp_or_udp (text "tcp") ≡ true)
        × (MayReceive alice_key u × MaySend alice_key u)
        × Permits alice_key.whitelist alice_key.blacklist (text "tcp") (text "a.org")
        × Reaches open_world (text "tcp") (text "a.org"))
unfolding Text-discrete
dial_context-charged_example =
    dial_context-charged (text "alice") alice_key traffic two_users (used_cells 0) open_world
      (text "127.0.0.1") (text "tcp") (text "a.org") two_users-IsSound alice-Stands
      alice_is_no_admin
      (record {
        bytes = omega arith;
        in_bytes = omega arith;
        out_bytes = omega arith;
        received = omega arith;
        sent = omega arith;
      })
      (record { in_share = λ h. omega arith; out_share = λ h. omega arith }) (omega arith)
