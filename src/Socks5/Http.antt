-- ===== src/Socks5/Http.antt =====
-- The HTTP proxy on the port of the SOCKS5 server (socks5/http.go). Go's package net/http is a
-- parameter: how a request is taken off the front of a text and written out again.
pub mod Replay
pub mod Fetching
pub mod Termination
pub mod Routing
use toh.Base.{
  ℕ, zero, suc, Text, text, same, Bool, true, false, ◌&&◌, ◌||◌, Option, none, some, List, [], ◌∷◌,
  ◌++◌, length, take, drop, ltb, ◌==◌, if◌then◌else◌, Result, ok, err,
}
use toh.Base.Dict.{Dict, lookup, insert}
use toh.Base.Net.{is_loopback, decimal}
use toh.Base.ParseIp.{parse_ip, is_private}
use toh.Base.HostPort.{split_host_port}
use toh.Socks5.Options.{Options}
use toh.Socks5.Handshake.{Io, NetConn, read, send, close, parsed_ip}

-- `protocolDetectionConnWrapper`: bytes that were read before, and the connection.
pub record Wrapper : Type 0 where
  pub b : Option Text
  pub conn : Io

unfoldable pub wrapper_read : ℕ → Wrapper → Option Text × Wrapper
wrapper_read n c = elim c.b [
  | some b ↦ (
    some (take n b),
    record c { b = if ltb (length (take n b)) (length b) then some (drop n b) else none },
  )
  | none ↦ let (r, io) = read n c.conn in (r, record c { conn = io })
]

pub record HttpRequest : Type 0 where
  pub method : Text
  pub host : Text
  pub url_host : Text
  pub url_path : Text
  pub headers : Dict Text

-- What a parser says of the bytes read so far: that they are not enough, that they are wrong, or
-- the result with the bytes behind it. Where they are not enough, the number and one more is for
-- how many bytes the library then asks the connection: the room that is left in the buffer of the
-- reader, which is 4096 bytes less those that it holds and the parser has not taken yet, or, past
-- the buffer, the size of the slice for a body.
pub data Parse (A : Type 0) : Type 0 where
  incomplete : ℕ → Parse A
  malformed : Text → Parse A
  parsed : A → Text → Parse A

-- `http.ReadRequest`; `request.Write`, which reads the body; and `http.StatusText` and `Header.Write`.
pub record HttpLib : Type 0 where
  pub read_request : Text → Parse HttpRequest
  pub write_request : HttpRequest → Text → Parse Text
  pub status_text : ℕ → Text
  pub header_text : Dict Text → Text

-- `bufio.Reader`: the bytes that have been read and belong to no result yet.
pub record Reader : Type 0 where
  pub buffered : Text
  pub conn : Wrapper

pub data Fetched (A : Type 0) : Type 0 where
  fetched : A → Fetched A
  at_end : Fetched A
  failed : Text → Fetched A
  out_of_fuel : Fetched A

-- The end of the stream, or another error of the connection.
abbrev pub ended : {A : Type 0} → Text → Fetched A
ended [] = at_end
ended (_ ∷ _) = failed (text "unexpected EOF")

-- The reader gives a parser more bytes until it has enough.
unfoldable pub fetch : {A : Type 0} → (Text → Parse A) → ℕ → Reader → Fetched A × Reader
unfolding wrapper_read
fetch parse zero r = (out_of_fuel, r)
fetch parse (suc fuel) r = elim (parse r.buffered) [
  | parsed a rest ↦ (fetched a, record r { buffered = rest })
  | malformed e ↦ (failed e, r)
  | incomplete room ↦
      let (got, w) = wrapper_read (suc room) r.conn in
      elim got [
        | none ↦ (ended r.buffered, record r { conn = w })
        | some bytes ↦ fetch parse fuel (record { buffered = r.buffered ++ bytes; conn = w })
      ]
]

-- `HTTPResponseWriter`
pub record HttpResponseWriter : Type 0 where
  pub headers : Dict Text
  pub status_code : ℕ
  pub body : Text

-- `date` is the time in the form of the header.
unfoldable pub new_response_writer : Text → HttpResponseWriter
unfolding insert
new_response_writer date = record {
  headers =
      insert (text "Server") (text "ToH")
        (insert (text "Date") date (insert (text "Connection") (text "keep-alive") []));
  status_code = 200;
  body = [];
}

unfoldable pub write : Text → HttpResponseWriter → ℕ × HttpResponseWriter
write bytes w = (length bytes, record w { body = w.body ++ bytes })

unfoldable pub write_header : ℕ → HttpResponseWriter → HttpResponseWriter
write_header status_code w = record w { status_code = status_code }

-- What a write that fails leaves undone, and one that does not.
abbrev pub sent : Text → Io → Io
sent bytes io = (send bytes io).1

-- `write`, in its four writes; a failed one is logged only.
unfoldable pub write_response : HttpLib → HttpResponseWriter → Io → Io
unfolding send decimal insert
write_response lib w io =
    let headers = insert (text "Content-Length") (decimal (length w.body)) w.headers in
    let status_line =
      text "HTTP/1.1 " ++ (decimal w.status_code ++ (text " " ++ lib.status_text w.status_code)) in
    sent w.body
      (sent (text "\r\n") (sent (lib.header_text headers) (sent (status_line ++ text "\r\n") io)))

abbrev pub pac_server : Options → Text → Text
pac_server opts refer_addr =
    if is_loopback (parsed_ip opts.advertise_ip)
    then refer_addr
    else opts.advertise_ip ++ (text ":" ++ decimal opts.advertise_port)

abbrev pub pac_script : Text → Text
pac_script server =
    text "// give me a star please: https://github.com/binarycraft007/toh\n\n"
    ++ (text "function FindProxyForURL(url, host) {\n"
        ++ (text "    if (isPlainHostName(host)) return 'DIRECT'\n"
            ++ (text "    if (isInNet(host, '10.0.0.0', '255.0.0.0') ||\n"
                ++ (text "    isInNet(host, '172.16.0.0', '255.240.0.0') ||\n"
                    ++ (text "    isInNet(host, '192.168.0.0', '255.255.0.0') ||\n"
                        ++ (text
                              "    isInNet(host, '127.0.0.0', '255.255.255.0')) return 'DIRECT'\n"
                            ++ (text "    return 'SOCKS5 " ++ (server ++ text "'\n}\n"))))))))

unfoldable pub response_pac_script : Options → Text → Io → Io
unfolding send is_loopback parse_ip decimal
response_pac_script opts refer_addr io =
    let content = pac_script (pac_server opts refer_addr) in
    sent content (
      sent (text "\r\n\r\n")
        (sent (decimal (length content)) (sent (text "HTTP/1.1 200 OK\r\nContent-Length: ") io)))

-- The host and port that a request names, and the address to dial.
pub record Target : Type 0 where
  pub host : Text
  pub port : Text
  pub addr : Text

unfoldable pub target : HttpRequest → Target
unfolding split_host_port
target r = elim (split_host_port r.host) [
  | ok (host, port) ↦ record { host = host; port = port; addr = r.host }
  | err _ ↦ record { host = r.url_host; port = text "80"; addr = r.host ++ text ":80" }
]

-- Whether the request is for the proxy itself.
unfoldable pub is_local : Options → Target → Bool
unfolding parse_ip is_loopback is_private
is_local opts t = elim (parse_ip t.host) [
  | none ↦ false
  | some ip ↦ is_loopback ip || (is_private ip && same t.port (decimal opts.advertise_port))
]

-- What happens to a connection in the end: it is closed, or joined to one that was dialled, which gets
-- the bytes of an outer wrapper first, where there is one.
pub data Handled : Type 0 where
  conn_closed : Io → Handled
  joined : Option Text → Wrapper → NetConn → Handled
  gave_up : Handled

-- `request.Header.Del("Proxy-Connection")`
unfoldable pub header_del : Text → Dict Text → Dict Text
header_del k [] = []
header_del k ((j, v) ∷ d) = let rest = header_del k d in if same j k then rest else (j, v) ∷ rest

-- What a round of the loop says: go on, or stop.
pub data Round : Type 0 where
  go_on : Reader → Round
  stop : Handled → Round

abbrev pub on_conn : (Io → Io) → Reader → Reader
on_conn f r = record r { conn = record r.conn { conn = f r.conn.conn } }

-- What the connection to the server gets first: the bytes that `request.Write` makes.
unfoldable pub proxy_plain : NetConn → Fetched Text × Reader → Round
proxy_plain c (fetched bytes, r) = stop (joined (some bytes) r.conn c)
proxy_plain c (at_end, r) = go_on r
proxy_plain c (failed e, r) = go_on r
proxy_plain c (out_of_fuel, r) = stop gave_up

module _ (lib : HttpLib) (opts : Options) (date : Text)
    (handlers : Dict (HttpRequest → HttpResponseWriter → HttpResponseWriter))
    (dial : Text → Result Text NetConn) where
  unfoldable pub respond_locally : HttpRequest → Target → Io → Io
  unfolding write_response response_pac_script new_response_writer
  respond_locally r t io = elim (lookup r.url_path handlers) [
    | some h ↦ write_response lib (h r (new_response_writer date)) io
    | none ↦ response_pac_script opts t.addr io
  ]

  -- From the connection that was dialled on. The tunnel reads on from the connection, not from the
  -- reader.
  unfoldable pub proxy : ℕ → HttpRequest → NetConn → Reader → Round
  unfolding proxy_plain fetch header_del
  proxy fuel q c r =
      if same q.method (text "CONNECT")
      then (if r.conn.conn.broken
          then go_on r
          else stop (
              joined none
                (on_conn (sent (text "HTTP/1.1 200 Connection established\r\n\r\n")) r).conn c))
      else proxy_plain c (
          fetch
            (lib.write_request
              (record q { headers = header_del (text "Proxy-Connection") q.headers }))
            fuel r)

  unfoldable pub round : ℕ → HttpRequest → Reader → Round
  unfolding is_local target respond_locally proxy
  round fuel q r =
      let t = target q in
      if is_local opts t
      then go_on (on_conn (respond_locally q t) r)
      else (elim (dial t.addr) [ err _ ↦ go_on r | ok c ↦ proxy fuel q c r ])

  abbrev pub after_round : (Reader → Handled) → Round → Handled
  after_round again (go_on r) = again r
  after_round again (stop h) = h

  -- From the request that has been read on; `again` is the next round.
  unfoldable pub after_request : (Reader → Handled) → ℕ → Fetched HttpRequest × Reader → Handled
  unfolding round
  after_request again fuel (fetched q, r) = after_round again (round fuel q r)
  after_request again fuel (at_end, r) = conn_closed (close r.conn.conn)
  after_request again fuel (failed e, r) = conn_closed (close r.conn.conn)
  after_request again fuel (out_of_fuel, r) = gave_up

  -- The loop; `fuel` bounds the rounds and the reads of each.
  unfoldable pub handle_loop : ℕ → Reader → Handled
  unfolding fetch after_request
  handle_loop zero r = gave_up
  handle_loop (suc fuel) r =
      after_request (handle_loop fuel) (suc fuel) (fetch lib.read_request (suc fuel) r)

  unfoldable pub handle : ℕ → Text → Io → Handled
  unfolding handle_loop
  handle fuel b io =
      handle_loop fuel (record { buffered = []; conn = record { b = some b; conn = io } })
