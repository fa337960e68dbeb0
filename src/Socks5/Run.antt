-- ===== src/Socks5/Run.antt =====
-- What the SOCKS5 server does around the handshake (socks5/socks5.go, `Run`), and around a datagram
-- (socks5/udp.go, `startUDPListenLoop`).
pub mod Drain
use toh.Base.{
  ℕ, zero, suc, ◌+◌, Text, Option, none, some, List, [], ◌∷◌, ◌++◌, Result, ok, err, take,
}
use toh.Socks5.Options.{Options}
use toh.Socks5.Handshake.{
  Io, NetConn, Outcome, refused, http_proxy, connected, udp_associated, panicked, read, close,
  handshake,
}
use toh.Socks5.Udp.{Peer, pipe_socks5_udp}

-- The reads of a connection that is not joined to another: what comes is dropped, until the first
-- error. `none` means that the fuel has run out.
unfoldable pub drain : ℕ → Io → Option Io
unfolding read
drain zero io = none
drain (suc fuel) io =
    let (got, io') = read 32768 io in elim got [ none ↦ some (close io') | some _ ↦ drain fuel io' ]

-- How the goroutine of one connection ends: joined to a dialled connection until the first copy ends,
-- or drained, or with the panic of the handshake, which stops the program. The dialled connection is
-- not closed.
pub data ConnEnd : Type 0 where
  copied : NetConn → Io → ConnEnd
  drained : Option Io → ConnEnd
  crashed : ConnEnd

unfoldable pub after_handshake : ℕ → Outcome × Io → ConnEnd
unfolding drain
after_handshake fuel (connected c, io) = copied c (close io)
after_handshake fuel (panicked, io) = crashed
after_handshake fuel (refused, io) = drained (drain fuel (record io { incoming = [] }))
after_handshake fuel (http_proxy b, io) = drained (drain fuel io)
after_handshake fuel (udp_associated, io) = drained (drain fuel io)

unfoldable pub run_conn : ℕ → Options → (Text → Result Text NetConn) → Io → ConnEnd
unfolding after_handshake
run_conn fuel opts dial io = after_handshake fuel (handshake opts dial io)

-- The datagrams as `ReadFrom` gives them, each with the address of its client, up to the first error;
-- the result is what is written back, to whom.
unfoldable pub udp_listen_loop :
    (Text → Text → Peer) → List (Result Text (Text × Text)) → List (Text × Text)
udp_listen_loop dial [] = []
udp_listen_loop dial (err e ∷ rest) = []
udp_listen_loop dial (ok (packet, client) ∷ rest) =
    let later = udp_listen_loop dial rest in
    elim (pipe_socks5_udp dial (take 16384 packet)) [
      | ok answer ↦ (client, answer) ∷ later
      | err e ↦ later
    ]

-- What becomes of the server: how each accepted connection ends, in the order in which they are
-- accepted, what goes back to the clients of datagrams, and the error with which it returns, if it
-- does. (A crash stops the rest, too.)
pub record Served : Type 0 where
  pub conns : List ConnEnd
  pub answers : List (Text × Text)
  pub error : Option Text

-- The loop that accepts, up to the first error; each connection has a goroutine of its own.
unfoldable pub accept_loop :
    ℕ → Options → (Text → Result Text NetConn) → List (Result Text Io) → List ConnEnd × Option Text
unfolding run_conn
accept_loop fuel opts dial [] = ([], none)
accept_loop fuel opts dial (err e ∷ rest) = ([], some e)
accept_loop fuel opts dial (ok io ∷ rest) =
    let (conns, error) = accept_loop fuel opts dial rest in
    (run_conn fuel opts dial io ∷ conns, error)

-- `Run` on the two sockets, each of which may fail to be opened.
unfoldable pub run :
    ℕ
    → Options
    → (Text → Result Text NetConn)
    → (Text → Text → Peer)
    → Result Text (List (Result Text Io))
    → Result Text (List (Result Text (Text × Text)))
    → Served
unfolding accept_loop udp_listen_loop
run fuel opts dial dial_udp (err e) packets = record { conns = []; answers = []; error = some e }
run fuel opts dial dial_udp (ok accepts) (err e) = record {
  conns = [];
  answers = [];
  error = some e;
}
run fuel opts dial dial_udp (ok accepts) (ok packets) =
    let (conns, error) = accept_loop fuel opts dial accepts in
    record { conns = conns; answers = udp_listen_loop dial_udp packets; error = error }
