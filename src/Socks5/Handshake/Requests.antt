-- ===== src/Socks5/Handshake/Requests.antt =====
-- What the handshake of socks5/socks5.go does with the requests of RFC 1928, up to their commands.
use mathlib.Core.List.{append_assoc}
use toh.Base.{
  ℕ, ◌<◌, Text, ◌≡◌, refl, ap, ◌∙◌, subst, false, List, [], ◌∷◌, ◌++◌, length, take_all, drop_all,
  take_front, drop_front, arith, Result,
}
use toh.Base.Net.{ip_string, join_host_port, decimal}
use toh.Spec.Tools.{uint16_to_bytes, bytes_to_uint16}
use toh.Socks5.Options.{Options}
use toh.Socks5.Handshake.{
  Io, M, pure, NetConn, refused, next, ◌>>=◌, push, expect, send_checked, greet, read_addr,
  read_request, run_command, close, finish, finish_step, handshake,
}

pub data Address : Type 0 where
  ipv4 domain ipv6 : Text → Address

-- An IPv4 address has four bytes, an IPv6 address sixteen, and a domain at most 255.
abbrev pub IsAddress : Address → Type 0
IsAddress (ipv4 b) = length b ≡ 4
IsAddress (domain b) = length b < 256
IsAddress (ipv6 b) = length b ≡ 16

abbrev atyp : Address → ℕ
atyp (ipv4 _) = 1
atyp (domain _) = 3
atyp (ipv6 _) = 4

abbrev address_bytes : Address → Text
address_bytes (ipv4 b) = b
address_bytes (domain b) = length b ∷ b
address_bytes (ipv6 b) = b

-- The host to dial.
abbrev pub host : Address → Text
host (ipv4 b) = ip_string b
host (domain b) = b
host (ipv6 b) = ip_string b

-- A request, with the number of its command.
abbrev pub request : ℕ → Address → ℕ → Text
request cmd a port = 5 ∷ cmd ∷ 0 ∷ atyp a ∷ (address_bytes a ++ uint16_to_bytes port)

-- The rest of a block, once its first part has gone on.
bind_next :
    {A B : Type 0} (m : M A) (f : A → M B) (io : Io) {a : A} {io' : Io}
    → m io ≡ (next a, io')
    → (m >>= f) io ≡ f a io'
bind_next m f io h = ground (arith, h)

expect_front :
    (io : Io) (b more : Text) (rest : List Text)
    → expect (length b) (record io { incoming = push (b ++ more) rest })
      ≡ (next b, record io { incoming = push more rest })
unfolding expect
expect_front io [] more rest = refl
expect_front io (x ∷ b) more rest =
    ground (arith, take_front (length b) b more refl, drop_front (length b) b more refl)

expect_all :
    (io : Io) (b : Text) (rest : List Text)
    → expect (length b) (record io { incoming = push b rest })
      ≡ (next b, record io { incoming = rest })
unfolding expect
expect_all io [] rest = refl
expect_all io (x ∷ b) rest =
    ground (arith, take_all (length b) b (omega arith), drop_all (length b) b (omega arith))

greet_lem :
    (io : Io) (methods : Text) (rest : List Text)
    → io.broken ≡ false
    → greet (record io { incoming = (5 ∷ length methods ∷ methods) ∷ rest })
      ≡ (next tt, record io { incoming = rest; outgoing = io.outgoing ++ (5 ∷ 0 ∷ []) ∷ [] })
unfolding greet
greet_lem io methods rest ready =
    bind_next (expect (length methods)) (λ _. send_checked (5 ∷ 0 ∷ []))
      (record io { incoming = push methods rest }) (expect_all io methods rest)
    ∙ rw ready

-- The address behind its kind.
read_addr_lem :
    (io : Io) (a : Address) (more : Text) (rest : List Text)
    → IsAddress a
    → read_addr (atyp a) (record io { incoming = push (address_bytes a ++ more) rest })
      ≡ (next (host a), record io { incoming = push more rest })
unfolding read_addr
read_addr_lem io (ipv4 b) more rest h =
    bind_next (expect 4) (λ b'. pure (ip_string b'))
      (record io { incoming = push (b ++ more) rest })
      (subst
        (λ k.
          expect k (record io { incoming = push (b ++ more) rest })
          ≡ (next b, record io { incoming = push more rest }))
        h (expect_front io b more rest))
read_addr_lem io (domain b) more rest h = expect_front io b more rest
read_addr_lem io (ipv6 b) more rest h =
    bind_next (expect 16) (λ b'. pure (ip_string b'))
      (record io { incoming = push (b ++ more) rest })
      (subst
        (λ k.
          expect k (record io { incoming = push (b ++ more) rest })
          ≡ (next b, record io { incoming = push more rest }))
        h (expect_front io b more rest))

decoded_port : (port : ℕ) → port < 65536 → bytes_to_uint16 (uint16_to_bytes port) ≡ port
unfolding bytes_to_uint16 uint16_to_bytes
decoded_port port small = omega arith

-- A whole request in front of other bytes: it gives the command and the address to dial.
read_request_lem :
    (io : Io) (cmd : ℕ) (a : Address) (port : ℕ) (more : Text) (rest : List Text)
    → IsAddress a
    → port < 65536
    → read_request (record io { incoming = (request cmd a port ++ more) ∷ rest }) ≡ (
      next (cmd, join_host_port (host a) (decimal port)),
      record io { incoming = push more rest },
    )
unfolding read_request uint16_to_bytes
read_request_lem io cmd a port more rest h small =
    let answer = λ (addr : Text) (p : Text).
      pure {A = ℕ × Text} (cmd, join_host_port addr (decimal (bytes_to_uint16 p))) in
    rw (append_assoc (address_bytes a) (uint16_to_bytes port) more) (
      bind_next (read_addr (atyp a)) (λ addr. expect 2 >>= answer addr)
        (record io { incoming = push (address_bytes a ++ (uint16_to_bytes port ++ more)) rest })
        (read_addr_lem io a (uint16_to_bytes port ++ more) rest h)
      ∙ (bind_next (expect 2) (answer (host a))
            (record io { incoming = push (uint16_to_bytes port ++ more) rest })
            (expect_front io (uint16_to_bytes port) more rest)
          ∙ ap
              (λ q.
                pure {A = ℕ × Text} (cmd, join_host_port (host a) (decimal q))
                  (record io { incoming = push more rest }))
              (decoded_port port small)))

-- The exchange up to the command: the client sends its greeting, and, in one segment, its request,
-- which other bytes may follow.
abbrev pub exchange : Io → Text → Text → List Text → Io
exchange io methods asked rest = record io {
  incoming = (5 ∷ length methods ∷ methods) ∷ asked ∷ rest;
}

-- On a connection that takes writes, a client that sends its greeting in one segment, and in the next
-- one a whole request for a port and an IPv4 address, a domain of at most 255 bytes or an IPv6 address
-- gets the greeting answered, and the command is run with
-- the address and port of the request; what follows the request is left unread.
pub handshake_runs_request :
    (opts : Options) (dial : Text → Result Text NetConn) (io : Io) (methods : Text) (cmd : ℕ)
    (a : Address) (port : ℕ) (more : Text) (rest : List Text)
    → io.broken ≡ false
    → IsAddress a
    → port < 65536
    → handshake opts dial (exchange io methods (request cmd a port ++ more) rest)
      ≡ finish_step (
          run_command opts dial cmd
            (join_host_port (host a) (decimal port))
            (record io { incoming = push more rest; outgoing = io.outgoing ++ (5 ∷ 0 ∷ []) ∷ [] }))
unfolding handshake
handshake_runs_request opts dial io methods cmd a port more rest ready good small =
    let command = λ (r : ℕ × Text). run_command opts dial r.0 r.1 in
    ap finish_step (
      bind_next greet (λ _. read_request >>= command)
        (exchange io methods (request cmd a port ++ more) rest)
        (greet_lem io methods ((request cmd a port ++ more) ∷ rest) ready)
      ∙ bind_next read_request command
          (record io {
            incoming = (request cmd a port ++ more) ∷ rest;
            outgoing = io.outgoing ++ (5 ∷ 0 ∷ []) ∷ [];
          })
          (read_request_lem (record io { outgoing = io.outgoing ++ (5 ∷ 0 ∷ []) ∷ [] }) cmd a port
            more rest good small))

-- What the client has got when a command has been run after the greeting.
abbrev pub replies : Io → List Text → Io
replies io sent = record io { outgoing = io.outgoing ++ (5 ∷ 0 ∷ []) ∷ sent }

-- TCP may deliver a request in pieces. If the first segment has only one byte, the client is refused
-- and its connection closed, without an answer, whatever follows.
handshake_needs_whole_reads :
    (opts : Options) (dial : Text → Result Text NetConn) (io : Io) (b : ℕ) (rest : List Text)
    → handshake opts dial (record io { incoming = (b ∷ []) ∷ rest })
      ≡ (refused, close (record io { incoming = rest }))
unfolding handshake greet finish
handshake_needs_whole_reads opts dial io b rest = refl
