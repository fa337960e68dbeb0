-- ===== src/Socks5/Handshake/Commands.antt =====
-- The answers of socks5/socks5.go to the single commands, written out.
use mathlib.Core.List.{append_assoc}
use toh.Base.{
  ℕ, ◌<◌, Text, ◌≡◌, ◌∙◌, ◌≢◌, false, some, List, [], ◌∷◌, ◌++◌, length, ◌==◌, if◌then◌else◌, arith,
  Result, ok, err,
}
use toh.Base.Net.{join_host_port, decimal}
use toh.Spec.Tools.{uint16_to_bytes}
use toh.Socks5.Options.{Options}
use toh.Socks5.Handshake.{
  Io, NetConn, refused, connected, push, run_command, close, finish, handshake, addr_port, connect,
}
use toh.Socks5.Handshake.Requests.{
  IsAddress, Address, host, request, exchange, replies, handshake_runs_request,
}

append-more : (xs : List Text) (x y : Text) → (xs ++ x ∷ []) ++ y ∷ [] ≡ xs ++ x ∷ y ∷ []
append-more xs x y = append_assoc xs (x ∷ []) (y ∷ [])

module _ (opts : Options) (dial : Text → Result Text NetConn) (io : Io) (methods : Text) (cmd : ℕ)
    (a : Address) (port : ℕ) (more : Text) (rest : List Text) (ready : io.broken ≡ false)
    (good : IsAddress a) (small : port < 65536) where
  -- On a connection that takes writes, where greeting and request come in one segment each, for CONNECT
  -- to an address that cannot be dialled: the client is told that the host is unreachable, and its
  -- connection is closed.
  handshake_unreachable :
      cmd ≡ 1
      → (e : Text) → dial (join_host_port (host a) (decimal port)) ≡ err e
      → handshake opts dial (exchange io methods (request cmd a port ++ more) rest) ≡ (
        refused,
        close (
            replies
              (record io { incoming = push more rest })
              ((5 ∷ 4 ∷ 0 ∷ 1 ∷ 0 ∷ 0 ∷ 0 ∷ 0 ∷ 0 ∷ 0 ∷ []) ∷ [])),
      )
  unfolding run_command connect finish
  handshake_unreachable is_connect e failed =
      handshake_runs_request opts dial io methods cmd a port more rest ready good small
      ∙ ground
          (arith, append-more io.outgoing (5 ∷ 0 ∷ []) (5 ∷ 4 ∷ 0 ∷ 1 ∷ 0 ∷ 0 ∷ 0 ∷ 0 ∷ 0 ∷ 0 ∷ []))

  -- On a connection that takes writes, where greeting and request come in one segment each, for a
  -- command other than CONNECT and UDP ASSOCIATE: the client is told that the command is not
  -- supported, its connection is closed, and nothing is dialled.
  handshake_unsupported :
      cmd ≢ 1
      → cmd ≢ 3
      → handshake opts dial (exchange io methods (request cmd a port ++ more) rest) ≡ (
        refused,
        close (
            replies
              (record io { incoming = push more rest })
              ((5 ∷ 7 ∷ 0 ∷ 1 ∷ 0 ∷ 0 ∷ 0 ∷ 0 ∷ 0 ∷ 0 ∷ []) ∷ [])),
      )
  unfolding run_command finish
  handshake_unsupported not_connect not_udp =
      handshake_runs_request opts dial io methods cmd a port more rest ready good small
      ∙ ground
          (arith, append-more io.outgoing (5 ∷ 0 ∷ []) (5 ∷ 7 ∷ 0 ∷ 1 ∷ 0 ∷ 0 ∷ 0 ∷ 0 ∷ 0 ∷ 0 ∷ []))

  -- On a connection that takes writes, where greeting and request come in one segment each, for CONNECT
  -- to an address that can be dialled, where the new connection has a local address and port: the two
  -- are joined, and the client gets the success code, the kind of the local address, the address and
  -- the port, in three writes.
  handshake_connected :
      cmd ≡ 1
      → (c : NetConn) (ip : Text) (p : ℕ) → dial (join_host_port (host a) (decimal port)) ≡ ok c
      → c.local_addr ≡ some (addr_port ip p)
      → handshake opts dial (exchange io methods (request cmd a port ++ more) rest) ≡ (
        connected c,
        replies
            (record io { incoming = push more rest })
            ((5 ∷ 0 ∷ 0 ∷ (if length ip == 16 then 4 else 1) ∷ []) ∷ ip ∷ uint16_to_bytes p ∷ []),
      )
  unfolding run_command connect finish
  handshake_connected is_connect c ip p dialled address =
      let kind : Text = 5 ∷ 0 ∷ 0 ∷ (if length ip == 16 then 4 else 1) ∷ [] in
      let one = append-more io.outgoing (5 ∷ 0 ∷ []) kind in
      let two = append_assoc io.outgoing ((5 ∷ 0 ∷ []) ∷ kind ∷ []) (ip ∷ []) in
      let three =
        append_assoc io.outgoing ((5 ∷ 0 ∷ []) ∷ kind ∷ ip ∷ []) (uint16_to_bytes p ∷ []) in
      handshake_runs_request opts dial io methods cmd a port more rest ready good small
      ∙ ground (arith, one, two, three)
