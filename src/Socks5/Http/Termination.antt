-- ===== src/Socks5/Http/Termination.antt =====
-- The loop of the HTTP proxy (socks5/http.go) ends: every round takes a request off the connection.
use toh.Base.{
  Result-cases, text, same, ℕ, zero, suc, ◌+◌, ◌≤◌, ◌<◌, Text, ◌≡◌, ◌≢◌, some, Option-cases, inl,
  inr, [], length, Bool-cases, arith, Result,
}
use toh.Base.Dict.{Dict, lookup}
use toh.Socks5.Options.{Options}
use toh.Socks5.Handshake.{Io, NetConn, send}
use toh.Socks5.Http.{
  sent, write_response, response_pac_script, on_conn, respond_locally, new_response_writer, Target,
  target, is_local, header_del, Parse, HttpLib, HttpRequest, HttpResponseWriter, Reader, Fetched,
  fetched, at_end, failed, out_of_fuel, fetch, Handled, gave_up, Round, go_on, stop, proxy_plain,
  proxy, round, after_round, after_request, handle_loop, handle,
}
use toh.Socks5.Http.Replay.{flat}
use toh.Socks5.Http.Fetching.{Arrives, pending, total, Takes, IsFetched, fetch-IsFetched}

sent-incoming : (bytes : Text) (io : Io) → (sent bytes io).incoming ≡ io.incoming
unfolding send
sent-incoming bytes io = ground arith

response-incoming :
    (lib : HttpLib) (w : HttpResponseWriter) (io : Io)
    → (write_response lib w io).incoming ≡ io.incoming
unfolding write_response
response-incoming lib w io = ground arith

pac_script-incoming :
    (opts : Options) (addr : Text) (io : Io)
    → (response_pac_script opts addr io).incoming ≡ io.incoming
unfolding response_pac_script
pac_script-incoming opts addr io = ground arith

-- A round goes on with no more bytes to come, or stops with a result.
abbrev IsRound : Reader → Round → Type 0
IsRound r (go_on r') = (total r' ≤ total r) × Arrives r'.conn.conn.incoming
IsRound r (stop h) = h ≢ gave_up

on_conn-IsRound :
    (f : Io → Io) (r : Reader)
    → (f r.conn.conn).incoming ≡ r.conn.conn.incoming
    → Arrives r.conn.conn.incoming
    → IsRound r (go_on (on_conn f r))
on_conn-IsRound f r e h = ground arith

plain-IsRound :
    (parse : Text → Parse Text) (c : NetConn) (r : Reader) (x : Fetched Text × Reader)
    → IsFetched parse r x
    → IsRound r (proxy_plain c x)
unfolding proxy_plain
plain-IsRound parse c r (fetched bytes, r') h = λ e. cc
plain-IsRound parse c r (at_end, r') h = h
plain-IsRound parse c r (failed e, r') h = h
plain-IsRound parse c r (out_of_fuel, r') h = absurd h

module _ (lib : HttpLib) (opts : Options) (date : Text)
    (handlers : Dict (HttpRequest → HttpResponseWriter → HttpResponseWriter))
    (dial : Text → Result Text NetConn) where
  local-incoming :
      (q : HttpRequest) (t : Target) (io : Io)
      → (respond_locally lib opts date handlers dial q t io).incoming ≡ io.incoming
  unfolding respond_locally
  local-incoming q t io = elim (Option-cases (lookup q.url_path handlers)) [
    | inl missing ↦ rw (missing, respond_locally) (pac_script-incoming opts t.addr io)
    | inr (h, found) ↦
        rw (found, respond_locally) (response-incoming lib (h q (new_response_writer date)) io)
  ]

  module _ (fuel : ℕ) (q : HttpRequest) (r : Reader) (h : Arrives r.conn.conn.incoming)
      (enough : pending r.conn < fuel) where
    proxy-IsRound : (c : NetConn) → IsRound r (proxy lib opts date handlers dial fuel q c r)
    unfolding proxy
    proxy-IsRound c =
        let body : Text → Parse Text =
          lib.write_request
            (record q { headers = header_del (text "Proxy-Connection") q.headers }) in
        elim (Bool-cases (same q.method (text "CONNECT"))) [
          | inr plain ↦
              rw (plain, proxy)
                (plain-IsRound body c r (fetch body fuel r) (fetch-IsFetched body fuel r h enough))
          | inl tunnel ↦ elim (Bool-cases r.conn.conn.broken) [
            | inl broken ↦ rw (tunnel, proxy) (rw broken (omega arith, h))
            | inr fine ↦ rw (tunnel, proxy) (rw fine (λ e. cc))
          ]
        ]

    round-IsRound : IsRound r (round lib opts date handlers dial fuel q r)
    unfolding round
    round-IsRound = elim (Bool-cases (is_local opts (target q))) [
      | inl own ↦
          rw (own, round)
            (on_conn-IsRound (respond_locally lib opts date handlers dial q (target q)) r
              (local-incoming q (target q) r.conn.conn) h)
      | inr away ↦ elim (Result-cases (dial (target q).addr)) [
        | inl (c, dialled) ↦ rw (away, round) (rw dialled (proxy-IsRound c))
        | inr (e, missed) ↦ rw (away, round) (rw missed (omega arith, h))
      ]
    ]

  after_round_ends :
      (again : Reader → Handled) (r : Reader) (x : Round)
      → ((r' : Reader) → Arrives r'.conn.conn.incoming → total r' ≤ total r → again r' ≢ gave_up)
      → IsRound r x
      → after_round lib opts date handlers dial again x ≢ gave_up
  after_round_ends again r (go_on r') more h = more r' h.1 h.0
  after_round_ends again r (stop x) more h = h

  after_request_ends :
      (again : Reader → Handled) (fuel : ℕ) (r : Reader) (x : Fetched HttpRequest × Reader)
      → Takes lib.read_request
      → total r < fuel
      → ((r' : Reader) → Arrives r'.conn.conn.incoming → total r' < total r → again r' ≢ gave_up)
      → IsFetched lib.read_request r x
      → after_request lib opts date handlers dial again fuel x ≢ gave_up
  unfolding after_request
  after_request_ends again fuel r (fetched q, r') takes enough more (less, h) =
      let lt : total r' < total r = less takes in
      after_round_ends again r' (round lib opts date handlers dial fuel q r')
        (λ r₂ h₂ le. more r₂ h₂ (omega arith)) (round-IsRound fuel q r' h (omega arith))
  after_request_ends again fuel r (at_end, r') takes enough more h = λ e. cc
  after_request_ends again fuel r (failed e, r') takes enough more h = λ e. cc
  after_request_ends again fuel r (out_of_fuel, r') takes enough more h = absurd h

  handle_loop_ends :
      (takes : Takes lib.read_request) (fuel : ℕ) (r : Reader)
      → Arrives r.conn.conn.incoming
      → total r < fuel
      → handle_loop lib opts date handlers dial fuel r ≢ gave_up
  unfolding handle_loop
  handle_loop_ends takes zero r h enough = absurd (omega arith)
  handle_loop_ends takes (suc fuel) r h enough =
      after_request_ends (handle_loop lib opts date handlers dial fuel) (suc fuel) r
        (fetch lib.read_request (suc fuel) r) takes enough
        (λ r' h' less. handle_loop_ends takes fuel r' h' (omega arith))
        (fetch-IsFetched lib.read_request (suc fuel) r h (omega arith))

  -- Where the parser of requests takes at least a byte for each, and no segment of the connection is
  -- empty: the proxy ends, with the connection closed or joined to another, with any fuel above the
  -- number of bytes that the connection and the protocol detection have to give by two or more.
  pub handle_ends :
      (fuel : ℕ) (b : Text) (io : Io)
      → Takes lib.read_request
      → Arrives io.incoming
      → length b + length (flat io.incoming) + 1 < fuel
      → handle lib opts date handlers dial fuel b io ≢ gave_up
  unfolding handle
  handle_ends fuel b io takes h enough =
      handle_loop_ends takes fuel
        (record { buffered = []; conn = record { b = some b; conn = io } }) h (omega arith)
