-- ===== src/Cmd/S5/Datagrams.antt =====
-- What `toh s5` does with a datagram (socks5/udp.go), from its configuration (cmd/s5/server) to the
-- list of the server (server/acl/acl.go) that it dials through.
use toh.Base.{
  Text, text, ◌≡◌, refl, sym, Text-discrete, ◌↔◌, Option, Result-cases, none, some, inl, inr,
  Result, ok, err, arith, true,
}
use toh.Base.Int.{ℤ}
use toh.Base.Net.{ip_string, join_host_port, decimal}
use toh.Acl.State.{Acl}
use toh.Acl.Access.{check}
use toh.Server.Stream.{World, Served, Trace}
use toh.Client.{DialError, tcp_or_udp}
use toh.Client.Reach.{opened, first_message, Reaches, IsOk, dial_context_iff}
use toh.Socks5.Udp.{Datagram, Peer, decode_socks5_packet, pipe_socks5_udp}
use toh.Cmd.S5.{TohServer, Options, S5Server, new_s5_server, dial, dial_udp}
use toh.Cmd.S5.Startup.{new_s5_server-password}

-- What the address behind the server does with a content: whether it takes it, and what it answers.
abbrev pub Remote : Type 0
Remote = Text → Option Text × Result Text Text

-- What the relay gets from `dial_udp`. It does not look at the error.
abbrev pub relay_peer : {C : Type 0} → Remote → Result DialError C → Text → Peer
relay_peer remote (ok c) content =
    let (e, answer) = remote content in
    record { dial_error = none; write_error = e; answer = answer }
relay_peer remote (err e) content = record {
  dial_error = some (text "dial failed");
  write_error = none;
  answer = err (text "not connected");
}

relayed_iff :
    {C : Type 0} (remote : Text → Remote) (dialled : Text → Result DialError C) (packet : Text)
    (d : Datagram)
    → decode_socks5_packet packet ≡ ok d
    → let addr = join_host_port (ip_string d.ip) (decimal d.port) in
      IsOk (pipe_socks5_udp (λ to. relay_peer (remote to) (dialled to)) packet)
      ↔ (IsOk (dialled addr) × ((remote addr d.payload).0 ≡ none) × IsOk (remote addr d.payload).1)
unfolding pipe_socks5_udp
relayed_iff remote dialled packet d decoded =
    let addr = join_host_port (ip_string d.ip) (decimal d.port) in
    elim (Result-cases (dialled addr)) [
      | inl (c, there) ↦ ground (arith, decoded, there)
      | inr (e, gone) ↦ ground (arith, decoded, gone)
    ]

module _ {G : Type 0} (parse_duration : Text → Result Text ℤ)
    (dial_grpc : Text → Text → Result Text G) where
  -- For a configuration with a server, where `NewS5Server` succeeds, for any list and world behind
  -- that server, and a packet that decodes: the relay answers exactly if `Check` lets the password
  -- of the configuration through for UDP and the address in the packet, the server reaches that
  -- address, and it takes the content and answers.
  pub relay_iff :
      (a : Acl) (w : World) (ip : Text) (remote : Text → Remote) (opts : Options) (srv : TohServer)
      (s : S5Server G) (packet : Text) (d : Datagram)
      → opts.cfg.server ≡ some srv
      → new_s5_server parse_duration dial_grpc opts ≡ some (ok s)
      → decode_socks5_packet packet ≡ ok d
      → let addr = join_host_port (ip_string d.ip) (decimal d.port) in
        let dials : Text → Text → Peer = λ to.
          relay_peer (remote to) (dial_udp (λ (g : G) md. opened a w ip md) first_message s to) in
        IsOk (pipe_socks5_udp dials packet) ↔ (
          (check a srv.password (text "udp") addr ≡ none)
          × Reaches w (text "udp") addr
          × ((remote addr d.payload).0 ≡ none)
          × IsOk (remote addr d.payload).1)
  unfolding dial_udp dial Text-discrete
  relay_iff a w ip remote opts srv s packet d configured made decoded =
      let addr = join_host_port (ip_string d.ip) (decimal d.port) in
      let same_password =
        new_s5_server-password parse_duration dial_grpc opts srv s configured made in
      let dialled : Text → Result DialError (Served × Trace) =
        λ to. dial_udp (λ (g : G) md. opened a w ip md) first_message s to in
      let supported : tcp_or_udp (text "udp") ≡ true = refl in
      rw (sym same_password) (
        ground (
          arith,
          supported,
          relayed_iff remote dialled packet d decoded,
          dial_context_iff a w ip s.server.password (text "udp") addr,
        ))
