-- ===== src/Socks5/Handshake.antt =====
-- The SOCKS5 handshake of one client connection (socks5/socks5.go, `handshake`).
pub mod Requests
pub mod Commands
pub mod Replies
use toh.Base.{
  ℕ, zero, suc, Text, Bool, true, false, Option, none, some, List, [], ◌∷◌, ◌++◌, not, length,
  get_or, take, drop, leb, ◌==◌, if◌then◌else◌, Result, ok, err,
}
use toh.Base.Net.{to4, to16, is_loopback, ip_string, join_host_port, decimal}
use toh.Base.ParseIp.{parse_ip}
use toh.Socks5.Options.{Options}
use toh.Spec.Tools.{uint16_to_bytes, bytes_to_uint16}

-- The client's connection: the segments that its bytes arrive in, none of them empty, the writes to
-- it, whether a write fails, and whether it has been closed. `address` is its local IP address.
pub record Io : Type 0 where
  pub incoming : List Text
  pub outgoing : List Text
  pub broken : Bool
  pub closed : Bool
  pub address : Text

-- The local address of a connection that was dialled: an address and port, or a text of another form.
pub data LocalAddr : Type 0 where
  addr_port : Text → ℕ → LocalAddr
  other_form : LocalAddr

pub record NetConn : Type 0 where
  pub local_addr : Option LocalAddr

-- How the handshake ends: the connection is closed, handed to the HTTP proxy together with the bytes
-- read so far, joined to a dialled connection, or kept open for the relay of datagrams. A panic also
-- closes it.
pub data Outcome : Type 0 where
  refused : Outcome
  http_proxy : Text → Outcome
  connected : NetConn → Outcome
  udp_associated : Outcome
  panicked : Outcome

pub data Step (A : Type 0) : Type 0 where
  next : A → Step A
  returned : Outcome → Step A

abbrev pub M : Type 0 → Type 0
M A = Io → Step A × Io

infixl 5 ◌>>=◌ ◌>>◌
abbrev pub ◌>>=◌ : {A B : Type 0} → M A → (A → M B) → M B
◌>>=◌ m f io = let (r, io') = m io in elim r [ next a ↦ f a io' | returned o ↦ (returned o, io') ]

abbrev pub ◌>>◌ : {A B : Type 0} → M A → M B → M B
m >> k = m >>= λ _. k

abbrev pub pure : {A : Type 0} → A → M A
pure a io = (next a, io)

abbrev pub return : {A : Type 0} → Outcome → M A
return o io = (returned o, io)

-- What is left of a segment stays in front.
abbrev pub push : Text → List Text → List Text
push [] rest = rest
push (b ∷ bs) rest = (b ∷ bs) ∷ rest

-- `conn.Read` into a buffer of `k` bytes, with `none` for an error: it takes at most one segment.
unfoldable pub read : ℕ → Io → Option Text × Io
read zero io = (some [], io)
read (suc k) io = elim io.incoming [
  | [] ↦ (none, io)
  | seg ∷ rest ↦ (some (take (suc k) seg), record io { incoming = push (drop (suc k) seg) rest })
]

-- A read after which the code tests `err != nil || n != k`, and what stands in the buffer then.
unfoldable pub expect : ℕ → M Text
unfolding read
expect k io =
    let (r, io') = read k io in
    elim r [
      | none ↦ (returned refused, io')
      | some b ↦ if length b == k then (next b, io') else (returned refused, io')
    ]

-- `conn.Write` whose result is not looked at, and one whose failure ends the handshake.
unfoldable pub send : Text → M (Unit {0})
send b io = (next tt, if io.broken then io else record io { outgoing = io.outgoing ++ b ∷ [] })

unfoldable pub send_checked : Text → M (Unit {0})
unfolding send
send_checked b io = if io.broken then (returned refused, io) else send b io

-- The version test, the methods, and the answer that no authentication is needed.
unfoldable pub greet : M (Unit {0})
unfolding expect send_checked
greet = do
  b ← expect 2
  if not (get_or b 0 0 == 5)
      then (if leb 65 (get_or b 0 0) then return (http_proxy b) else return refused)
      else do expect (get_or b 1 0); send_checked (5 ∷ 0 ∷ [])

-- The address as text.
unfoldable pub read_addr : ℕ → M Text
unfolding expect
read_addr atyp =
    if atyp == 1
    then (do b ← expect 4; pure (ip_string b))
    else if atyp == 3
    then (do b ← expect 1; expect (get_or b 0 0))
    else if atyp == 4
    then (do b ← expect 16; pure (ip_string b))
    else return refused

-- The command, and the address and port behind it.
unfoldable pub read_request : M (ℕ × Text)
unfolding expect read_addr
read_request = do
  b ← expect 4
  if not (get_or b 0 0 == 5) then return refused else do
    addr ← read_addr (get_or b 3 0)
    p ← expect 2
    pure (get_or b 1 0, join_host_port addr (decimal (bytes_to_uint16 p)))

-- The answer to CONNECT.
unfoldable pub reply_connected : Option LocalAddr → M (Unit {0})
unfolding send
reply_connected none = send (5 ∷ 0 ∷ 0 ∷ 1 ∷ 0 ∷ 0 ∷ 0 ∷ 0 ∷ 0 ∷ 0 ∷ [])
reply_connected (some other_form) = return panicked
reply_connected (some (addr_port ip port)) = do
  send (5 ∷ 0 ∷ 0 ∷ (if length ip == 16 then 4 else 1) ∷ [])
  send ip
  send (uint16_to_bytes port)

unfoldable pub connect : Result Text NetConn → M Outcome
unfolding send reply_connected
connect (err e) = do send (5 ∷ 4 ∷ 0 ∷ 1 ∷ 0 ∷ 0 ∷ 0 ∷ 0 ∷ 0 ∷ 0 ∷ []); return refused
connect (ok c) = do reply_connected c.local_addr; pure (connected c)

-- `net.ParseIP`, with the empty text for nil.
abbrev pub parsed_ip : Text → Text
parsed_ip s = elim (parse_ip s) [ some ip ↦ ip | none ↦ [] ]

-- The answer to UDP ASSOCIATE, with the local address of the connection in place of a loopback.
unfoldable pub associate : Options → M Outcome
unfolding send
associate opts io =
    let advertised = parsed_ip opts.advertise_ip in
    let ip = if is_loopback advertised then io.address else advertised in
    (do
      elim (to4 ip) [
        | none ↦ (do send (5 ∷ 0 ∷ 0 ∷ 4 ∷ []); send (to16 ip))
        | some v4 ↦ (do send (5 ∷ 0 ∷ 0 ∷ 1 ∷ []); send v4)
      ]
      send (uint16_to_bytes opts.advertise_port)
      pure udp_associated)
      io

unfoldable pub run_command : Options → (Text → Result Text NetConn) → ℕ → Text → M Outcome
unfolding send
run_command opts dial cmd remote_addr =
    if cmd == 1
    then connect (dial remote_addr)
    else if cmd == 3
    then associate opts
    else (do send (5 ∷ 7 ∷ 0 ∷ 1 ∷ 0 ∷ 0 ∷ 0 ∷ 0 ∷ 0 ∷ 0 ∷ []); return refused)

abbrev pub close : Io → Io
close io = record io { closed = true }

-- The deferred call: `closeConn` is still set where the connection was not handed on.
unfoldable pub finish : Outcome → Io → Outcome × Io
finish refused io = (refused, close io)
finish panicked io = (panicked, close io)
finish o io = (o, io)

abbrev pub finish_step : Step Outcome × Io → Outcome × Io
finish_step (next o, io) = finish o io
finish_step (returned o, io) = finish o io

-- `dial` is `TCPDialContext`.
unfoldable pub handshake : Options → (Text → Result Text NetConn) → Io → Outcome × Io
handshake opts dial io =
    finish_step
      ((do greet; (cmd, remote_addr) ← read_request; run_command opts dial cmd remote_addr) io)
