-- ===== src/Socks5/Udp.antt =====
-- The datagrams of the SOCKS5 UDP relay (socks5/udp.go).
pub mod Format
pub mod Relay
use toh.Base.{
  ℕ, ◌-◌, Text, Bool, ◌||◌, Option, none, some, List, [], ◌∷◌, ◌++◌, not, length, get_or, take,
  drop, ltb, ◌==◌, if◌then◌else◌, Result, ok, err, ◌>>=◌,
}
use toh.Base.Net.{to4, to16, ip_string, join_host_port, decimal}
use toh.Spec.Tools.{uint16_to_bytes, bytes_to_uint16}

pub data DecodeError : Type 0 where
  invalid_datagram bad_reserved fragmented unsupported_atyp : DecodeError

pub record Datagram : Type 0 where
  pub ip : Text
  pub port : ℕ
  pub payload : Text

-- From the length of the header on.
unfoldable pub decode_header : Text → ℕ → Result DecodeError Datagram
unfolding bytes_to_uint16
decode_header packet head =
    if ltb (length packet) head
    then err invalid_datagram
    else ok (record {
      ip = drop 4 (take (head - 2) packet);
      port = bytes_to_uint16 (drop (head - 2) (take head packet));
      payload = drop head packet;
    })

unfoldable pub decode_socks5_packet : Text → Result DecodeError Datagram
unfolding decode_header
decode_socks5_packet packet =
    if ltb (length packet) 4
    then err invalid_datagram
    else if not (get_or packet 0 0 == 0) || not (get_or packet 1 0 == 0)
    then err bad_reserved
    else if not (get_or packet 2 0 == 0)
    then err fragmented
    else if get_or packet 3 0 == 1
    then decode_header packet 10
    else if get_or packet 3 0 == 4
    then decode_header packet 22
    else err unsupported_atyp

-- The packet that carries an answer back.
unfoldable pub reply_packet : Text → ℕ → Text → Text
reply_packet ip port answer = elim (to4 ip) [
  | none ↦ (0 ∷ 0 ∷ 0 ∷ 4 ∷ []) ++ (to16 ip ++ (uint16_to_bytes port ++ answer))
  | some v4 ↦ (0 ∷ 0 ∷ 0 ∷ 1 ∷ []) ++ (v4 ++ (uint16_to_bytes port ++ answer))
]

-- What the relayed connection does: whether it can be dialled, takes the payload and answers.
pub record Peer : Type 0 where
  pub dial_error : Option Text
  pub write_error : Option Text
  pub answer : Result Text Text

pub data RelayError : Type 0 where
  undecoded : DecodeError → RelayError
  relay_failed : Text → RelayError

abbrev pub fail_with : Option Text → Result RelayError (Unit {0})
fail_with none = ok tt
fail_with (some e) = err (relay_failed e)

abbrev pub relayed : Result Text Text → Result RelayError Text
relayed (ok a) = ok a
relayed (err e) = err (relay_failed e)

-- `pipeSocks5UDP`: the packet written to the client, or the error that is logged. `dial` is
-- `UDPDialContext`, and gets the address as text. The answer is read into the 16 KiB buffer that the
-- packet came in; the address has been copied out of it before.
unfoldable pub pipe_socks5_udp : (Text → Text → Peer) → Text → Result RelayError Text
unfolding decode_socks5_packet reply_packet
pipe_socks5_udp dial packet = elim (decode_socks5_packet packet) [
  | err e ↦ err (undecoded e)
  | ok d ↦
      let peer = dial (join_host_port (ip_string d.ip) (decimal d.port)) d.payload in
      fail_with peer.dial_error >>= λ _. fail_with peer.write_error >>= λ _.
      relayed peer.answer >>= λ a. ok (reply_packet d.ip d.port (take 16384 a))
]
