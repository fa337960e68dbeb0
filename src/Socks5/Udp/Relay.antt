-- ===== src/Socks5/Udp/Relay.antt =====
-- A datagram through the relay of socks5/udp.go and its answer back to the client.
use toh.Base.{
  ℕ, ◌<◌, Text, ◌≡◌, ap, ◌∙◌, ◌⊎◌, inl, inr, none, some, Option-cases, length, take, ok, arith,
}
use toh.Base.Net.{to4, ip_string, join_host_port, decimal}
use toh.Socks5.Udp.{Peer, decode_socks5_packet, reply_packet, pipe_socks5_udp}
use toh.Socks5.Udp.Format.{shortest, shortest-none, shortest-some, length-to4, decode-reply_packet}

shortest_size :
    (ip : Text)
    → (length ip ≡ 4) ⊎ (length ip ≡ 16)
    → (length (shortest ip) ≡ 4) ⊎ (length (shortest ip) ≡ 16)
shortest_size ip size = elim (Option-cases (to4 ip)) [
  | inl long ↦ ground (arith, shortest-none ip)
  | inr (v4, short) ↦ ground (arith, length-to4 ip v4, shortest-some ip v4)
]

to4_short : (ip : Text) → length ip ≡ 4 → to4 ip ≡ some ip
unfolding to4
to4_short ip h = ground arith

shortest_twice : (ip : Text) → shortest (shortest ip) ≡ shortest ip
shortest_twice ip = elim (Option-cases (to4 ip)) [
  | inl long ↦ ap shortest (shortest-none ip long)
  | inr (v4, short) ↦ ground (arith, length-to4 ip v4, to4_short v4)
]

-- A packet for an address of 4 or 16 bytes, a 16-bit port and a content, where the address behind the
-- relay, written in its shortest form, can be dialled, takes the content and answers: the relay sends a
-- packet back that decodes to that shortest form, the port, and the first 16384
-- bytes of the answer.
pub pipe_socks5_udp-answers :
    (dial : Text → Text → Peer) (ip : Text) (port : ℕ) (content answer : Text)
    → (length ip ≡ 4) ⊎ (length ip ≡ 16)
    → port < 65536
    → dial (join_host_port (ip_string (shortest ip)) (decimal port)) content
      ≡ record { dial_error = none; write_error = none; answer = ok answer }
    → (back : Text) × (pipe_socks5_udp dial (reply_packet ip port content) ≡ ok back)
      × (decode_socks5_packet back
          ≡ ok (record { ip = shortest ip; port = port; payload = take 16384 answer }))
unfolding pipe_socks5_udp
pipe_socks5_udp-answers dial ip port content answer size small answers =
    let asked = decode-reply_packet ip port content size small in
    let answered =
      decode-reply_packet (shortest ip) port (take 16384 answer) (shortest_size ip size) small in
    (
      reply_packet (shortest ip) port (take 16384 answer),
      ground (arith, asked, answers),
      answered
          ∙ ap (λ a. ok (record { ip = a; port = port; payload = take 16384 answer }))
              (shortest_twice ip),
    )
