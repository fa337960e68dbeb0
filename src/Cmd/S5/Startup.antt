-- ===== src/Cmd/S5/Startup.antt =====
-- What `toh s5` does for a client, from its configuration (cmd/s5/server) to the list of the server
-- (server/acl/acl.go) that it dials through.
use toh.Base.{
  ℕ, ◌<◌, Text, text, ◌≡◌, refl, sym, Text-discrete, ◌≢◌, ◌↔◌, false, Result-cases, none, some, inl,
  inr, List, [], ◌∷◌, ◌++◌, Result, ok, err, arith,
}
use toh.Base.Int.{ℤ}
use toh.Base.Net.{join_host_port, decimal}
use toh.Acl.State.{Acl}
use toh.Acl.Access.{check}
use toh.Server.Stream.{Metadata, World, Served, Trace}
use toh.Client.{DialError}
use toh.Client.Reach.{opened, first_message, Reaches, IsOk, dial_context_iff}
use toh.Socks5.Options as Proxy
use toh.Socks5.Handshake.{Io, NetConn, other_form, Outcome, connected, handshake, push}
use toh.Socks5.Handshake.Requests.{Address, IsAddress, host, request, exchange}
use toh.Socks5.Handshake.Replies.{settled, answer_connect, IsPlain, handshake_answers}
use toh.Cmd.S5.{TohServer, Server, Options, S5Server, load_server, new_s5_server, dial, dial_tcp}

-- What the handshake gets from `dial_tcp`: the connection as it sees it. It does not look at the error.
abbrev pub carried : {C : Type 0} → (C → NetConn) → Result DialError C → Result Text NetConn
carried conn (ok c) = ok (conn c)
carried conn (err e) = err (text "dial failed")

-- The outcome is that of a connection that is joined to the client's.
abbrev pub IsConnected : {C : Type 0} → (C → NetConn) → Outcome → Type 0
IsConnected {C} conn o = (c : C) × (o ≡ connected (conn c))

outcome_iff :
    {C : Type 0} (conn : C → NetConn) (r : Result DialError C) (io : Io)
    → IsConnected conn (settled (answer_connect (carried conn r)) io).0 ↔ IsOk r
outcome_iff conn (err e) io = ((λ (c, e'). cc e'), λ h. absurd h)
outcome_iff conn (ok c) io = ((λ h. tt), λ h. (c, refl))

carried-IsPlain :
    {C : Type 0} (conn : C → NetConn) (r : Result DialError C)
    → ((c : C) → (conn c).local_addr ≢ some other_form)
    → IsPlain (carried conn r)
carried-IsPlain conn (err e) plain d h = cc h
carried-IsPlain conn (ok c) plain d h = λ other. plain c (ground (arith, h, other))

module _ {G : Type 0} (parse_duration : Text → Result Text ℤ)
    (dial_grpc : Text → Text → Result Text G) where
  loaded_password :
      (srv : TohServer) (v : Server G)
      → load_server parse_duration dial_grpc srv ≡ ok v
      → v.password ≡ srv.password
  unfolding load_server
  loaded_password srv v loaded = ground arith

  -- The connection does not matter, only what stands behind it.
  abbrev through : Acl → World → Text → G → Metadata → Result Text (Served × Trace)
  through a w ip g md = opened a w ip md

  -- The program dials with the password of its configuration.
  pub new_s5_server-password :
      (opts : Options) (srv : TohServer) (s : S5Server G)
      → opts.cfg.server ≡ some srv
      → new_s5_server parse_duration dial_grpc opts ≡ some (ok s)
      → s.server.password ≡ srv.password
  unfolding new_s5_server
  new_s5_server-password opts srv s configured made =
      elim (Result-cases (load_server parse_duration dial_grpc srv)) [
        | inl (v, loaded) ↦ ground (arith, configured, made, loaded, loaded_password srv v loaded)
        | inr (e, failed) ↦ absurd (ground (arith, configured, made, failed))
      ]

  -- For a configuration with a server, where `NewS5Server` succeeds, for any list and world behind
  -- that server, and where the connections through it tell no local address or an address and port:
  -- a client of the SOCKS5 proxy that asks for a TCP connection, with greeting and request in one
  -- segment each, on a connection that takes writes, is connected, to such a connection, exactly if
  -- `Check` lets the password of the configuration through for the address of the request, and the
  -- server reaches it.
  pub connect_iff :
      (a : Acl) (w : World) (ip : Text) (conn : Served × Trace → NetConn) (opts : Options)
      (srv : TohServer) (s : S5Server G) (o : Proxy.Options) (io : Io) (methods : Text)
      (address : Address) (port : ℕ) (more : Text) (rest : List Text)
      → opts.cfg.server ≡ some srv
      → new_s5_server parse_duration dial_grpc opts ≡ some (ok s)
      → io.broken ≡ false
      → IsAddress address
      → port < 65536
      → ((c : Served × Trace) → (conn c).local_addr ≢ some other_form)
      → let addr = join_host_port (host address) (decimal port) in
        let dials : Text → Result Text NetConn =
          λ d. carried conn (dial_tcp (through a w ip) first_message s d) in
        IsConnected conn
          (handshake o dials (exchange io methods (request 1 address port ++ more) rest)).0
        ↔ ((check a srv.password (text "tcp") addr ≡ none) × Reaches w (text "tcp") addr)
  unfolding dial_tcp dial Text-discrete
  connect_iff a w ip conn opts srv s o io methods address port more rest configured made ready good
        small plain =
      let addr = join_host_port (host address) (decimal port) in
      let dials : Text → Result Text NetConn =
        λ d. carried conn (dial_tcp (through a w ip) first_message s d) in
      let same_password = new_s5_server-password opts srv s configured made in
      let answered =
        handshake_answers o dials io methods 1 address port more rest ready good small
          (λ e. carried-IsPlain conn (dial_tcp (through a w ip) first_message s addr) plain)
          (λ e. absurd (omega (arith, e))) in
      let reached = dial_context_iff a w ip s.server.password (text "tcp") addr in
      let joined =
        outcome_iff conn (dial_tcp (through a w ip) first_message s addr)
          (record io { incoming = push more rest; outgoing = io.outgoing ++ (5 ∷ 0 ∷ []) ∷ [] }) in
      rw answered (
        rw (sym same_password) (
          (λ there. let (tcp, passed, reaches) = reached.0 (joined.0 there) in (passed, reaches)),
          λ (passed, reaches). joined.1 (reached.1 (refl, passed, reaches)),
        ))
