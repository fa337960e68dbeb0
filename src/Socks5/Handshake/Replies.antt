-- ===== src/Socks5/Handshake/Replies.antt =====
-- What the client of socks5/socks5.go gets in answer to a request, byte for byte.
use mathlib.Core.List.{append_assoc}
use toh.Base.{
  ℕ, ◌<◌, ◌/◌, ◌%◌, ◌⊎◌, ◌≢◌, Bool, true, Text, ◌≡◌, refl, ◌∙◌, Bool-cases, Option-cases, inl, inr,
  false, Option, none, some, List, [], ◌∷◌, ◌++◌, length, ◌==◌, if◌then◌else◌, Result, ok, err,
  arith,
}
use toh.Base.Net.{to4, to16, is_loopback, join_host_port, decimal}
use toh.Spec.Tools.{uint16_to_bytes}
use toh.Socks5.Options.{Options}
use toh.Socks5.Handshake.{
  Io, LocalAddr, addr_port, other_form, NetConn, Outcome, refused, http_proxy, connected,
  udp_associated, panicked, parsed_ip, push, send, reply_connected, connect, associate, run_command,
  finish, finish_step, handshake,
}
use toh.Socks5.Handshake.Requests.{
  Address, IsAddress, host, request, exchange, replies, handshake_runs_request,
}

-- RFC 1928, section 6: version, reply code, a zero byte, then kind, address and port. Where there is no
-- address to tell it is that of four zero bytes.
abbrev pub plain_reply : ℕ → Text
plain_reply code = 5 ∷ code ∷ 0 ∷ 1 ∷ 0 ∷ 0 ∷ 0 ∷ 0 ∷ 0 ∷ 0 ∷ []

-- A port in network order.
abbrev pub two_bytes : ℕ → Text
two_bytes port = port / 256 % 256 ∷ port % 256 ∷ []

-- The writes that tell an address and port.
abbrev pub bound_reply : ℕ → Text → ℕ → List Text
bound_reply kind ip port = (5 ∷ 0 ∷ 0 ∷ kind ∷ []) ∷ ip ∷ two_bytes port ∷ []

abbrev pub connected_reply : Option LocalAddr → List Text
connected_reply none = plain_reply 0 ∷ []
connected_reply (some other_form) = []
connected_reply (some (addr_port ip port)) = bound_reply (if length ip == 16 then 4 else 1) ip port

-- The address that datagrams are to go to: the advertised one, or, if that is a loopback, the address
-- at which the client has reached the server.
abbrev pub relay_ip : Options → Io → Text
relay_ip opts io =
    if is_loopback (parsed_ip opts.advertise_ip) then io.address else parsed_ip opts.advertise_ip

abbrev pub relay_reply : Options → Io → List Text
relay_reply opts io = elim (to4 (relay_ip opts io)) [
  | some v4 ↦ bound_reply 1 v4 opts.advertise_port
  | none ↦ bound_reply 4 (relay_ip opts io) opts.advertise_port
]

-- The outcome of a command, and what the client gets.
abbrev pub answer_connect : Result Text NetConn → Outcome × List Text
answer_connect (err e) = (refused, plain_reply 4 ∷ [])
answer_connect (ok c) = (connected c, connected_reply c.local_addr)

abbrev pub answer : Options → (Text → Result Text NetConn) → Io → ℕ → Text → Outcome × List Text
answer opts dial io cmd addr =
    if cmd == 1
    then answer_connect (dial addr)
    else if cmd == 3
    then (udp_associated, relay_reply opts io)
    else (refused, plain_reply 7 ∷ [])

-- Something takes the connection over.
abbrev pub is_kept : Outcome → Bool
is_kept refused = false
is_kept (http_proxy b) = true
is_kept (connected c) = true
is_kept udp_associated = true
is_kept panicked = false

-- The outcome, and the connection once these writes have been made, and closed if nothing takes it
-- over.
abbrev pub settled : Outcome × List Text → Io → Outcome × Io
settled (o, sent) io = (
  o,
  record io { outgoing = io.outgoing ++ sent; closed = if is_kept o then io.closed else true },
)

-- The two forms of a local address that are an address and port, or none at all.
abbrev pub IsPlain : Result Text NetConn → Type 0
IsPlain r = (c : NetConn) → r ≡ ok c → c.local_addr ≢ some other_form

-- An IP address.
abbrev pub IsIp : Text → Type 0
IsIp ip = (length ip ≡ 4) ⊎ (length ip ≡ 16)

to16_long : (ip : Text) → IsIp ip → to4 ip ≡ none → to16 ip ≡ ip
unfolding to4 to16
to16_long ip size long = ground arith

connect-settled :
    (r : Result Text NetConn) (io : Io)
    → io.broken ≡ false
    → IsPlain r
    → finish_step (connect r io) ≡ settled (answer_connect r) io
unfolding connect reply_connected send finish uint16_to_bytes
connect-settled (err e) io ready plain = ground arith
connect-settled (ok c) io ready plain = by_address c.local_addr refl
  where
    by_address :
        (l : Option LocalAddr)
        → c.local_addr ≡ l
        → finish_step (connect (ok c) io) ≡ settled (answer_connect (ok c)) io
    by_address none e = ground arith
    by_address (some other_form) e = absurd (plain c refl e)
    by_address (some (addr_port ip p)) e = ground (
      arith,
      append_assoc io.outgoing ((5 ∷ 0 ∷ 0 ∷ (if length ip == 16 then 4 else 1) ∷ []) ∷ [])
          (ip ∷ []),
      append_assoc io.outgoing ((5 ∷ 0 ∷ 0 ∷ (if length ip == 16 then 4 else 1) ∷ []) ∷ ip ∷ [])
          (two_bytes p ∷ []),
    )

three_writes :
    (io : Io) (kind : ℕ) (ip : Text) (port : ℕ)
    → (io.outgoing ++ (5 ∷ 0 ∷ 0 ∷ kind ∷ []) ∷ []) ++ ip ∷ [] ++ two_bytes port ∷ []
      ≡ io.outgoing ++ bound_reply kind ip port
three_writes io kind ip port = simp append_assoc

associate-settled :
    (opts : Options) (io : Io)
    → io.broken ≡ false
    → IsIp (relay_ip opts io)
    → finish_step (associate opts io) ≡ settled (udp_associated, relay_reply opts io) io
unfolding associate send finish uint16_to_bytes
associate-settled opts io ready size = elim (Option-cases (to4 (relay_ip opts io))) [
  | inl long ↦
      rw (long, associate)
        (ground (
          arith,
          to16_long (relay_ip opts io) size long,
          three_writes io 4 (to16 (relay_ip opts io)) opts.advertise_port,
        ))
  | inr (v4, short) ↦
      rw (short, associate) (ground (arith, three_writes io 1 v4 opts.advertise_port))
]

command-settled :
    (opts : Options) (dial : Text → Result Text NetConn) (cmd : ℕ) (addr : Text) (io : Io)
    → io.broken ≡ false
    → (cmd ≡ 1 → IsPlain (dial addr))
    → (cmd ≡ 3 → IsIp (relay_ip opts io))
    → finish_step (run_command opts dial cmd addr io) ≡ settled (answer opts dial io cmd addr) io
unfolding run_command finish
command-settled opts dial cmd addr io ready plain size = elim (Bool-cases (cmd == 1)) [
  | inl is_connect ↦
      rw (is_connect, run_command) (connect-settled (dial addr) io ready (plain (ground arith)))
  | inr other ↦ elim (Bool-cases (cmd == 3)) [
    | inl is_udp ↦
        rw (other, run_command) (rw is_udp (associate-settled opts io ready (size (ground arith))))
    | inr neither ↦ rw (other, run_command) (rw neither (ground arith))
  ]
]

-- A request on a connection that takes writes, where greeting and request come in one segment each,
-- where for CONNECT the connection that is dialled tells no local address or an address and port,
-- and for UDP ASSOCIATE the address to announce is an IP address: the outcome and the bytes that
-- the client gets are those that RFC 1928 sets for the command and for what dialling gives, the
-- connection is closed where nothing takes it over, and what follows the request is left unread.
pub handshake_answers :
    (opts : Options) (dial : Text → Result Text NetConn) (io : Io) (methods : Text) (cmd : ℕ)
    (a : Address) (port : ℕ) (more : Text) (rest : List Text)
    → io.broken ≡ false
    → IsAddress a
    → port < 65536
    → (cmd ≡ 1 → IsPlain (dial (join_host_port (host a) (decimal port))))
    → (cmd ≡ 3 → IsIp (relay_ip opts io))
    → handshake opts dial (exchange io methods (request cmd a port ++ more) rest)
      ≡ settled
          (answer opts dial io cmd (join_host_port (host a) (decimal port)))
          (record io { incoming = push more rest; outgoing = io.outgoing ++ (5 ∷ 0 ∷ []) ∷ [] })
handshake_answers opts dial io methods cmd a port more rest ready good small plain size =
    handshake_runs_request opts dial io methods cmd a port more rest ready good small
    ∙ command-settled opts dial cmd (join_host_port (host a) (decimal port))
        (replies (record io { incoming = push more rest }) []) ready plain size
