-- ===== src/Client.antt =====
-- The client of the gRPC server (client/client.go): dialling an address through the server.
pub mod Reach
pub mod Traffic
use toh.Base.{
  Text, text, same, Bool, ◌||◌, List, [], ◌∷◌, ◌++◌, length, ◌==◌, if◌then◌else◌, Result, ok, err,
}
use toh.Spec.Types.{header_handshake_key, header_handshake_net, header_handshake_addr}
use toh.Base.Strings.{to_lower}
use toh.Base.HostPort.{split_host_port}

-- The errors: `ErrUnsupportNetwork` is that of `dial`, the other that of `DialContext`.
pub data DialError : Type 0 where
  unsupported_network : Text → DialError
  spec_unsupported : DialError
  outside : Text → DialError

abbrev pub tcp_or_udp : Text → Bool
tcp_or_udp network =
    (same network (text "tcp") || (same network (text "tcp4") || same network (text "tcp6")))
    || (same network (text "udp") || (same network (text "udp4") || same network (text "udp6")))

-- The metadata that goes out with a stream, for which names are made lower case.
unfoldable pub outgoing : Text → Text → Text → List (Text × Text)
outgoing password network addr =
    (to_lower header_handshake_key, password)
    ∷ (to_lower header_handshake_net, network)
    ∷ (to_lower header_handshake_addr, addr)
    ∷ []

-- `opened` is the stream that the call gives, of type `C`, and `first` what `Recv` gives on it.
module _ {C : Type 0} (open_stream : List (Text × Text) → Result Text C)
    (first : C → Result Text Text) where
  -- From the address on that the server has sent. The remote address that is made of its parts is
  -- dropped by the only caller.
  unfoldable pub established : Text → C → Text → Result DialError C
  established network conn content =
      let est_addr = if length content == 0 then text "0.0.0.0:0" else content in
      if tcp_or_udp network
      then (elim (split_host_port est_addr) [ ok _ ↦ ok conn | err e ↦ err (outside e) ])
      else err spec_unsupported

  unfoldable pub dial : Text → Text → Text → Result DialError C
  unfolding outgoing established
  dial password network addr = elim (open_stream (outgoing password network addr)) [
    | err e ↦ err (outside e)
    | ok stream ↦ elim (first stream) [
      | err e ↦ err (outside (text "failed to extablish remote conn: " ++ e))
      | ok content ↦ established network stream content
    ]
  ]

  unfoldable pub dial_context : Text → Text → Text → Result DialError C
  unfolding dial
  dial_context password network addr =
      if tcp_or_udp network then dial password network addr else err (unsupported_network network)

  unfoldable pub dial_tcp : Text → Text → Result DialError C
  unfolding dial_context
  dial_tcp password addr = dial_context password (text "tcp") addr

  unfoldable pub dial_udp : Text → Text → Result DialError C
  unfolding dial_context
  dial_udp password addr = dial_context password (text "udp") addr

-- `DialGrpc`: the certificates of the system, and the dialling of the library with TLS for the name.
unfoldable pub dial_grpc :
    {P G : Type 0} → Result Text P → (P → Text → Text → Result Text G) → Text → Text → Result Text G
dial_grpc system_cert_pool grpc_dial name address = elim system_cert_pool [
  | err e ↦ err e
  | ok pool ↦ grpc_dial pool name address
]
