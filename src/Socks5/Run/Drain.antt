-- ===== src/Socks5/Run/Drain.antt =====
-- The loop of socks5/socks5.go that drops what comes, and the association that it keeps open.
use toh.Base.{
  ap, ℕ, zero, suc, ◌<◌, Text, ◌≡◌, refl, some, List, [], ◌∷◌, length, drop, length-append,
  length-drop, arith, Result,
}
use toh.Socks5.Options.{Options}
use toh.Socks5.Handshake.{Io, NetConn, push, close, handshake, udp_associated}
use toh.Socks5.Run.{drain, drained, run_conn}
use toh.Socks5.Http.Replay.{flat, flat-push}
use toh.Socks5.Http.Fetching.{Arrives, Arrives-push}

drain_segments :
    (fuel : ℕ) (l : List Text) (io : Io)
    → io.incoming ≡ l
    → Arrives l
    → length (flat l) < fuel
    → drain fuel io ≡ some (close (record io { incoming = [] }))
unfolding drain
drain_segments zero l io e h enough = absurd (omega arith)
drain_segments (suc fuel) [] io e h enough = ground arith
drain_segments (suc fuel) (s ∷ ss) io e h enough =
    let left = push (drop 32768 s) ss in
    let next = record io { incoming = left } in
    ground (
      arith,
      flat-push (drop 32768 s) ss,
      length-append s (flat ss),
      length-append (drop 32768 s) (flat ss),
      length-drop 32768 s,
      Arrives-push (drop 32768 s) ss h.1,
      drain_segments fuel left next refl,
    )

-- For a request that ends in a UDP association, on a connection with no empty segment: whatever the
-- client sends afterwards is dropped, and the connection is closed when the client has closed its side,
-- with any fuel above the number of bytes that are still to come.
pub run_conn_associated :
    (fuel : ℕ) (opts : Options) (dial : Text → Result Text NetConn) (io io' : Io)
    → handshake opts dial io ≡ (udp_associated, io')
    → Arrives io'.incoming
    → length (flat io'.incoming) < fuel
    → run_conn fuel opts dial io ≡ drained (some (close (record io' { incoming = [] })))
unfolding run_conn
run_conn_associated fuel opts dial io io' ended h enough =
    rw (ended, run_conn) (ap drained (drain_segments fuel io'.incoming io' refl h enough))
