-- ===== src/Socks5/Http/Routing.antt =====
-- What the HTTP proxy of socks5/http.go does with a request, however it is cut into segments.
use toh.Base.HostPort.{split_host_port}
use toh.Base.{
  if◌then◌else◌, Bool-cases, Result-cases, inl, inr, ◌≢◌, same_iff, ℕ, zero, suc, ◌≤◌, ◌<◌, Text,
  text, same, ◌≡◌, refl, ◌∙◌, ap, none, some, List, [], ◌∷◌, ◌++◌, length, take_all, drop_all,
  arith, Result, ok, err, true, false,
}
use toh.Base.Dict.{Dict}
use toh.Socks5.Options.{Options}
use toh.Socks5.Handshake.{Io, NetConn, read, send, close}
use toh.Socks5.Http.{
  header_del, proxy_plain, Wrapper, wrapper_read, sent, on_conn, target, is_local, Parse, parsed,
  incomplete, HttpLib, HttpRequest, HttpResponseWriter, Reader, fetched, at_end, fetch, joined,
  conn_closed, go_on, stop, proxy, round, after_round, after_request, handle_loop, handle,
}

wrapper_read_held :
    (n : ℕ) (b : Text) (io : Io)
    → length b ≤ n
    → wrapper_read n (record { b = some b; conn = io }) ≡ (some b, record { b = none; conn = io })
unfolding wrapper_read
wrapper_read_held n b io h = ground (arith, take_all n b h)

wrapper_read_segment :
    (n : ℕ) (s : Text) (rest : List Text) (io : Io)
    → length s ≤ suc n
    → wrapper_read (suc n) (record { b = none; conn = record io { incoming = s ∷ rest } })
      ≡ (some s, record { b = none; conn = record io { incoming = rest } })
unfolding wrapper_read read
wrapper_read_segment n s rest io h = ground (arith, take_all (suc n) s h, drop_all (suc n) s h)

wrapper_read_over :
    (n : ℕ) (io : Io)
    → wrapper_read (suc n) (record { b = none; conn = record io { incoming = [] } })
      ≡ (none, record { b = none; conn = record io { incoming = [] } })
unfolding wrapper_read read
wrapper_read_over n io = refl

-- The address that a request is for: its host, with port 80 where it names none.
abbrev pub address_of : HttpRequest → Text
address_of q = elim (split_host_port q.host) [ ok _ ↦ q.host | err _ ↦ q.host ++ text ":80" ]

target-address_of : (q : HttpRequest) → (target q).addr ≡ address_of q
unfolding target
target-address_of q = elim (Result-cases (split_host_port q.host)) [
  | inl (p, split) ↦ ground (arith, split)
  | inr (e, unsplit) ↦ ground (arith, unsplit)
]

-- The headers that go on.
abbrev pub kept_header : Text × Text → Dict Text
kept_header (j, v) = if same j (text "Proxy-Connection") then [] else (j, v) ∷ []

abbrev pub kept_headers : Dict Text → Dict Text
kept_headers [] = []
kept_headers (h ∷ d) = kept_header h ++ kept_headers d

header_del-kept_headers : (d : Dict Text) → header_del (text "Proxy-Connection") d ≡ kept_headers d
unfolding header_del
header_del-kept_headers [] = refl
header_del-kept_headers ((j, v) ∷ d) = elim (Bool-cases (same j (text "Proxy-Connection"))) [
  | inl alike ↦ ground (arith, alike, header_del-kept_headers d)
  | inr other ↦ ground (arith, other, header_del-kept_headers d)
]

-- One round of the reader.
module _ {A : Type 0} (parse : Text → Parse A) (fuel : ℕ) (r : Reader) where
  fetch_more :
      (room : ℕ) (bytes : Text) (w : Wrapper)
      → parse r.buffered ≡ incomplete room
      → wrapper_read (suc room) r.conn ≡ (some bytes, w)
      → fetch parse (suc fuel) r
        ≡ fetch parse fuel (record { buffered = r.buffered ++ bytes; conn = w })
  unfolding fetch
  fetch_more room bytes w more got = ground arith

  fetch_done :
      (a : A) (rest : Text)
      → parse r.buffered ≡ parsed a rest
      → fetch parse (suc fuel) r ≡ (fetched a, record r { buffered = rest })
  unfolding fetch
  fetch_done a rest done = ground arith

  fetch_over :
      (room : ℕ) (w : Wrapper)
      → parse r.buffered ≡ incomplete room
      → r.buffered ≡ []
      → wrapper_read (suc room) r.conn ≡ (none, w)
      → fetch parse (suc fuel) r ≡ (at_end, record r { conn = w })
  unfolding fetch
  fetch_over room w more empty over = ground arith

module _ (lib : HttpLib) (opts : Options) (date : Text)
    (handlers : Dict (HttpRequest → HttpResponseWriter → HttpResponseWriter))
    (dial : Text → Result Text NetConn) (fuel : ℕ) (q : HttpRequest) where
  round_dialled :
      (r : Reader) (c : NetConn)
      → is_local opts (target q) ≡ false
      → dial (address_of q) ≡ ok c
      → round lib opts date handlers dial fuel q r ≡ proxy lib opts date handlers dial fuel q c r
  unfolding round
  round_dialled r c away dialled =
      rw (away, round) (rw (ap dial (target-address_of q) ∙ dialled) refl)

  round_undialled :
      (r : Reader) (e : Text)
      → is_local opts (target q) ≡ false
      → dial (address_of q) ≡ err e
      → round lib opts date handlers dial fuel q r ≡ go_on r
  unfolding round
  round_undialled r e away missed =
      rw (away, round) (rw (ap dial (target-address_of q) ∙ missed) refl)

  proxy_tunnel :
      (c : NetConn) (r : Reader)
      → q.method ≡ text "CONNECT"
      → r.conn.conn.broken ≡ false
      → proxy lib opts date handlers dial fuel q c r
        ≡ stop (
            joined none
              (on_conn (sent (text "HTTP/1.1 200 Connection established\r\n\r\n")) r).conn
              c)
  unfolding proxy
  proxy_tunnel c r tunnel ready =
      let is_connect : same q.method (text "CONNECT") ≡ true = (same_iff _ _).1 tunnel in
      rw (is_connect, proxy) (rw ready refl)

  proxy_rest :
      (c : NetConn) (r : Reader) (bytes left : Text) (more_fuel : ℕ)
      → fuel ≡ suc more_fuel
      → q.method ≢ text "CONNECT"
      → lib.write_request (record q { headers = kept_headers q.headers }) r.buffered
        ≡ parsed bytes left
      → proxy lib opts date handlers dial fuel q c r ≡ stop (joined (some bytes) r.conn c)
  unfolding proxy proxy_plain fetch
  proxy_rest c r bytes left more_fuel some_fuel other whole = ground (
    arith,
    some_fuel,
    other,
    whole,
    header_del-kept_headers q.headers,
    same_iff q.method (text "CONNECT"),
  )

sent_ready :
    (bytes : Text) (io : Io)
    → io.broken ≡ false
    → sent bytes io ≡ record io { outgoing = io.outgoing ++ bytes ∷ [] }
unfolding send
sent_ready bytes io ready = ground arith

-- The request `q`, behind the bytes that have been read, comes in these segments, and with its last
-- byte also the bytes `more`: no segment is longer than what the reader then asks for.
abbrev pub Comes : (Text → Parse HttpRequest) → HttpRequest → Text → Text → List Text → Type 0
Comes parse q more bytes [] = parse bytes ≡ parsed q more
Comes parse q more bytes (s ∷ ss) =
    (room : ℕ) × (parse bytes ≡ incomplete room)
    × (length s ≤ suc room)
    × Comes parse q more (bytes ++ s) ss

module _ (lib : HttpLib) (q : HttpRequest) (more : Text) (rest : List Text) (io : Io) where
  abbrev after_first : Reader
  after_first = record {
    buffered = more;
    conn = record { b = none; conn = record io { incoming = rest } };
  }

  fetch_segments :
      (ss : List Text) (fuel : ℕ) (bytes : Text)
      → length ss < fuel
      → Comes lib.read_request q more bytes ss
      → fetch lib.read_request fuel (record {
        buffered = bytes;
        conn = record { b = none; conn = record io { incoming = ss ++ rest } };
      })
        ≡ (fetched q, after_first)
  fetch_segments ss zero bytes enough h = absurd (omega arith)
  fetch_segments [] (suc fuel) bytes enough h = fetch_done lib.read_request fuel _ q more h
  fetch_segments (s ∷ ss) (suc fuel) bytes enough (room, more_to_come, fits, h) =
      fetch_more lib.read_request fuel _ room s _ more_to_come
        (wrapper_read_segment room s (ss ++ rest) io fits)
      ∙ fetch_segments ss fuel (bytes ++ s) (omega arith) h

  module _ (opts : Options) (date : Text)
      (handlers : Dict (HttpRequest → HttpResponseWriter → HttpResponseWriter))
      (dial : Text → Result Text NetConn) (fuel : ℕ) (b : Text) (ss : List Text)
      (enough : length ss ≤ fuel) (comes : Comes lib.read_request q more [] (b ∷ ss)) where
    first_fetch :
        fetch lib.read_request (suc (suc fuel)) (record {
          buffered = [];
          conn = record { b = some b; conn = record io { incoming = ss ++ rest } };
        })
        ≡ (fetched q, after_first)
    first_fetch =
        let (room, none_yet, fits, later) = comes in
        fetch_more lib.read_request (suc fuel) _ room b _ none_yet
          (wrapper_read_held (suc room) b (record io { incoming = ss ++ rest }) fits)
        ∙ fetch_segments ss (suc fuel) b (omega arith) later

    handle_first :
        handle lib opts date handlers dial (suc (suc fuel)) b (record io { incoming = ss ++ rest })
        ≡ after_round lib opts date handlers dial
            (handle_loop lib opts date handlers dial (suc fuel))
            (round lib opts date handlers dial (suc (suc fuel)) q after_first)
    unfolding handle handle_loop after_request
    handle_first = rw first_fetch refl

    -- A CONNECT request that is not for the proxy itself, and arrives behind the bytes that the
    -- protocol detection has read, in segments that fit into what the reader asks for, on a connection
    -- that takes writes, with a fuel above the number of segments by two or more: where its address can
    -- be dialled, the client is told that the connection is established, and the connection is joined
    -- to the new one, which gets what comes in later segments; what came in the last segment behind the
    -- request is dropped.
    pub handle_connect :
        (c : NetConn)
        → q.method ≡ text "CONNECT"
        → is_local opts (target q) ≡ false
        → dial (address_of q) ≡ ok c
        → io.broken ≡ false
        → handle lib opts date handlers dial
            (suc (suc fuel))
            b
            (record io { incoming = ss ++ rest })
          ≡ joined none
              (record {
                b = none;
                conn = record io {
                  incoming = rest;
                  outgoing = io.outgoing ++ text "HTTP/1.1 200 Connection established\r\n\r\n" ∷ [];
                };
              })
              c
    handle_connect c tunnel away dialled ready =
        handle_first
        ∙ rw
            (round_dialled lib opts date handlers dial (suc (suc fuel)) q after_first c away
              dialled)
            (rw
              (proxy_tunnel lib opts date handlers dial (suc (suc fuel)) q c after_first tunnel
                ready)
              (ap (λ i. joined none (record { b = none; conn = i }) c)
                (sent_ready (text "HTTP/1.1 200 Connection established\r\n\r\n")
                  (record io { incoming = rest }) ready)))

    -- A request with another method that is not for the proxy itself and arrives in the same way,
    -- with its whole body in the segments up to that of its last header: where its address can be
    -- dialled, the connection is joined to the new one, which gets the request first, without the
    -- header Proxy-Connection, and then what comes in later segments; what came behind the body in the
    -- last of these segments is dropped.
    pub handle_plain :
        (c : NetConn) (bytes left : Text)
        → q.method ≢ text "CONNECT"
        → is_local opts (target q) ≡ false
        → dial (address_of q) ≡ ok c
        → lib.write_request (record q { headers = kept_headers q.headers }) more ≡ parsed bytes left
        → handle lib opts date handlers dial
            (suc (suc fuel))
            b
            (record io { incoming = ss ++ rest })
          ≡ joined (some bytes) (record { b = none; conn = record io { incoming = rest } }) c
    handle_plain c bytes left other away dialled whole =
        handle_first
        ∙ rw
            (round_dialled lib opts date handlers dial (suc (suc fuel)) q after_first c away
              dialled)
            (rw
              (proxy_rest lib opts date handlers dial (suc (suc fuel)) q c after_first bytes left
                (suc fuel) refl other whole)
              refl)

    -- A request that is not for the proxy itself and arrives in the same way, with nothing behind it:
    -- where its address cannot be dialled, the client gets no answer, and once it has closed its side
    -- the connection is closed.
    handle_undialled :
        (e : Text)
        → is_local opts (target q) ≡ false
        → dial (address_of q) ≡ err e
        → rest ≡ []
        → more ≡ []
        → handle lib opts date handlers dial
            (suc (suc fuel))
            b
            (record io { incoming = ss ++ rest })
          ≡ conn_closed (close (record io { incoming = [] }))
    unfolding handle_loop after_request
    handle_undialled e away missed alone all =
        let (room, none_yet, fits, later) = comes in
        handle_first
        ∙ rw
            (round_undialled lib opts date handlers dial (suc (suc fuel)) q after_first e away
              missed)
            (rw
              (fetch_over lib.read_request fuel after_first room after_first.conn
                (cc (all, none_yet)) all (rw alone (wrapper_read_over room io)))
              (ground (arith, alone)))
