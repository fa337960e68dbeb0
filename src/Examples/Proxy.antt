-- ===== src/Examples/Proxy.antt =====
-- The theorems on the HTTP proxy and on what follows the handshake, at small inputs.
use toh.Base.{
  ◌<◌, ◌-◌, ◌≡◌, refl, ◌≢◌, Text, text, true, false, Bool-cases, none, some, [], ◌∷◌, ◌++◌, length,
  ◌==◌, if◌then◌else◌, Result, ok, err, inl, inr, arith,
}
use toh.Base.Net.{to4, is_loopback}
use toh.Base.ParseIp.{parse_ip}
use toh.Spec.Tools.{uint16_to_bytes}
use toh.Socks5.Options.{Options}
use toh.Socks5.Handshake.{
  Io, NetConn, addr_port, refused, close, handshake, greet, read_request, run_command, associate,
  finish,
}
use toh.Socks5.Handshake.Requests.{Address, domain, request, exchange}
use toh.Socks5.Handshake.Replies.{handshake_answers}
use toh.Socks5.Http.{
  HttpRequest, HttpLib, Parse, parsed, incomplete, is_local, target, joined, gave_up, handle,
}
use toh.Socks5.Http.Termination.{handle_ends}
use toh.Socks5.Http.Routing.{Comes, handle_connect, handle_plain}
use toh.Socks5.Run.{drained, run_conn}
use toh.Socks5.Run.Drain.{run_conn_associated}

abbrev io : Io
io = record {
  incoming = [];
  outgoing = [];
  broken = false;
  closed = false;
  address = 127 ∷ 0 ∷ 0 ∷ 1 ∷ [];
}

abbrev opts : Options
opts = record {
  listen = text "127.0.0.1:1080";
  advertise_ip = text "127.0.0.1";
  advertise_port = 1080;
}

abbrev net_conn : NetConn
net_conn = record { local_addr = some (addr_port (127 ∷ 0 ∷ 0 ∷ 1 ∷ []) 4000) }

abbrev dial_none : Text → Result Text NetConn
dial_none addr = err (text "no route")

abbrev dial_all : Text → Result Text NetConn
dial_all addr = ok net_conn

-- A request is a line with the host; its method is known.
abbrev request_for : Text → Text → HttpRequest
request_for method host = record {
  method = method;
  host = host;
  url_host = [];
  url_path = [];
  headers = [];
}

parse_line : Text → Text → Text → Parse HttpRequest
parse_line method host [] = incomplete (4095 - length host)
parse_line method host (c ∷ s) =
    let later = parse_line method (host ++ c ∷ []) s in
    if c == 10 then parsed (request_for method host) s else later

parse_line-Takes :
    (method host s : Text) (q : HttpRequest) (rest : Text)
    → parse_line method host s ≡ parsed q rest
    → length rest < length s
unfolding parse_line
parse_line-Takes method host [] q rest h = cc h
parse_line-Takes method host (c ∷ s) q rest h = elim (Bool-cases (c == 10)) [
  | inl newline ↦ ground (arith, h)
  | inr other ↦ ground (arith, parse_line-Takes method (host ++ c ∷ []) s q rest, h)
]

abbrev lib_for : Text → HttpLib
lib_for method = record {
  read_request = parse_line method [];
  write_request = λ q s. parsed (q.method ++ text " " ++ q.host) s;
  status_text = λ code. text "OK";
  header_text = λ headers. [];
}

abbrev lib : HttpLib
lib = lib_for (text "CONNECT")

handle_ends_example :
    handle lib opts [] [] dial_none 30
      (text "ab")
      (record io { incoming = text "c:1\n" ∷ text "x" ∷ [] })
    ≢ gave_up
handle_ends_example =
    handle_ends lib opts [] [] dial_none 30 (text "ab")
      (record io { incoming = text "c:1\n" ∷ text "x" ∷ [] }) (parse_line-Takes (text "CONNECT") [])
      (omega arith, (omega arith, tt)) (omega arith)

-- The request is cut in two, after the bytes that were read before; five bytes follow it.
with_more :
    Comes lib.read_request
      (request_for (text "CONNECT") (text "abc:1"))
      (text "hello")
      []
      (text "ab" ∷ text "c" ∷ text ":1\nhello" ∷ [])
unfolding parse_line
with_more = (_, refl, omega arith, (_, refl, omega arith, (_, refl, omega arith, refl)))

handle_connect_example :
    handle lib opts [] [] dial_all 8
      (text "ab")
      (record io { incoming = text "c" ∷ text ":1\nhello" ∷ [] })
    ≡ joined none
        (record {
          b = none;
          conn = record io { outgoing = text "HTTP/1.1 200 Connection established\r\n\r\n" ∷ [] };
        })
        net_conn
unfolding is_local target
handle_connect_example =
    handle_connect lib (request_for (text "CONNECT") (text "abc:1")) (text "hello") [] io opts [] []
      dial_all 6 (text "ab") (text "c" ∷ text ":1\nhello" ∷ []) (omega arith) with_more net_conn
      refl refl refl refl

plain :
    Comes
      (parse_line (text "GET") [])
      (request_for (text "GET") (text "abc:1"))
      []
      []
      (text "ab" ∷ text "c:1\n" ∷ [])
unfolding parse_line
plain = (_, refl, omega arith, (_, refl, omega arith, refl))

handle_plain_example :
    handle
      (lib_for (text "GET"))
      opts
      []
      []
      dial_all
      8
      (text "ab")
      (record io { incoming = text "c:1\n" ∷ text "later" ∷ [] })
    ≡ joined
        (some (text "GET abc:1"))
        (record { b = none; conn = record io { incoming = text "later" ∷ [] } })
        net_conn
unfolding is_local target
handle_plain_example =
    handle_plain (lib_for (text "GET")) (request_for (text "GET") (text "abc:1")) []
      (text "later" ∷ []) io opts [] [] dial_all 6 (text "ab") (text "c:1\n" ∷ []) (omega arith)
      plain net_conn (text "GET abc:1") [] (λ e. cc e) refl refl refl

abbrev site : Address
site = domain (text "a.org")

handshake_answers_example :
    handshake opts dial_none (exchange io (0 ∷ []) (request 1 site 443 ++ []) []) ≡ (
      refused,
      record io {
        outgoing = (5 ∷ 0 ∷ []) ∷ (5 ∷ 4 ∷ 0 ∷ 1 ∷ 0 ∷ 0 ∷ 0 ∷ 0 ∷ 0 ∷ 0 ∷ []) ∷ [];
        closed = true;
      },
    )
handshake_answers_example =
    handshake_answers opts dial_none io (0 ∷ []) 1 site 443 [] [] refl (omega arith) (omega arith)
      (λ e c h. cc h) (λ e. absurd (omega (arith, e)))

abbrev associated : Io
associated = exchange io (0 ∷ []) (request 3 site 443 ++ text "x") []

-- It is told the local address, and port 1080; one byte has still to be read.
abbrev after_request : Io
after_request = record io {
  incoming = text "x" ∷ [];
  outgoing = (5 ∷ 0 ∷ []) ∷ (5 ∷ 0 ∷ 0 ∷ 1 ∷ []) ∷ (127 ∷ 0 ∷ 0 ∷ 1 ∷ []) ∷ (4 ∷ 56 ∷ []) ∷ [];
}

run_conn_associated_example :
    run_conn 5 opts dial_all associated
    ≡ drained (some (close (record after_request { incoming = [] })))
unfolding handshake uint16_to_bytes greet read_request run_command associate to4 is_loopback
    parse_ip finish
run_conn_associated_example =
    run_conn_associated 5 opts dial_all associated after_request refl (omega arith, tt)
      (omega arith)
