-- ===== src/Cmd/S5.antt =====
-- The program `toh s5` (cmd/s5/server): its configuration, and how it makes the SOCKS5 server of it.
pub mod Startup
pub mod Datagrams
pub mod Health
pub mod Flags
use toh.Base.{
  ℕ, zero, suc, Text, text, Option, none, some, List, [], ◌∷◌, ◌++◌, length, ltb, ◌==◌,
  if◌then◌else◌, Result, ok, err,
}
use toh.Base.Int.{ℤ, pos, negsuc}
use toh.Base.Net.{join_host_port, decimal}
use toh.Socks5.Options as Proxy
use toh.Client.{DialError, dial_context}

pub record Advertise : Type 0 where
  pub ip : Text
  pub port : ℕ

-- The header of the requests is left out: nothing reads it.
pub record TohServer : Type 0 where
  pub password : Text
  pub remote_addr : Text
  pub remote_port : ℤ
  pub server_name : Text
  pub healthcheck : List Text
  pub keepalive : Text

pub record LocalNet : Type 0 where
  pub addr_family_detect_url : List Text

pub record Config : Type 0 where
  pub listen : Text
  pub advertise : Option Advertise
  pub server : Option TohServer
  pub local_net : Option LocalNet

abbrev pub default_addr_family_detect_url : List Text
default_addr_family_detect_url =
    text "http://detectportal.firefox.com/success.txt" ∷ text "http://204.ustclug.org" ∷ []

abbrev pub default_server_healthcheck : List Text
default_server_healthcheck =
    text "http://www.google.com/generate_204" ∷ text "http://maps.google.com/generate_204" ∷ []

abbrev pub or_default : List Text → List Text → List Text
or_default [] d = d
or_default (u ∷ us) d = u ∷ us

abbrev pub urls : Option LocalNet → List Text
urls none = []
urls (some l) = l.addr_family_detect_url

-- `applyDefaults` from the server on, which is behind a pointer.
abbrev pub with_defaults : TohServer → Config → Config
with_defaults srv c = record c {
  server =
      some (record srv { healthcheck = or_default srv.healthcheck default_server_healthcheck });
  local_net = some (record {
    addr_family_detect_url = or_default (urls c.local_net) default_addr_family_detect_url;
  });
}

-- The options of the command line, and the configuration; `dns_evict` is in nanoseconds.
pub record Options : Type 0 where
  pub cfg : Config
  pub listen : Text
  pub data_root : Text
  pub dns_fake : List Text
  pub dns_listen : Text
  pub dns_upstream : Text
  pub dns_evict : ℤ

-- `strconv.Itoa`
abbrev pub itoa : ℤ → Text
itoa (pos n) = decimal n
itoa (negsuc n) = text "-" ++ decimal (suc n)

abbrev pub advertise_options : Option Advertise → Proxy.Options → Proxy.Options
advertise_options none o = o
advertise_options (some a) o = record o { advertise_ip = a.ip; advertise_port = a.port }

-- The options of the SOCKS5 server: those of the configuration, and the address of the command line.
unfoldable pub socks5_options : Options → Proxy.Options
socks5_options opts =
    let o =
      advertise_options opts.cfg.advertise
        (record { listen = opts.cfg.listen; advertise_ip = []; advertise_port = 0 }) in
    if ltb 0 (length opts.listen) then record o { listen = opts.listen } else o

-- `latency` and `latency_ipv6` are in nanoseconds.
pub record Server (G : Type 0) : Type 0 where
  pub client : G
  pub password : Text
  pub latency : ℕ
  pub latency_ipv6 : ℕ

pub record S5Server (G : Type 0) : Type 0 where
  pub opts : Options
  pub socks5_opts : Proxy.Options
  pub server : Server G

abbrev pub five_minutes : ℕ
five_minutes = 300000000000

-- `G` is the type of gRPC connections. `parse_duration` is that of Go's package time; the client only
-- keeps what it gives.
module _ {G : Type 0} (parse_duration : Text → Result Text ℤ)
    (dial_grpc : Text → Text → Result Text G) where
  -- `NewTohClient` of client/client.go: the connection to the server.
  unfoldable pub new_toh_client : TohServer → Result Text G
  unfolding join_host_port decimal
  new_toh_client srv =
      dial_grpc srv.server_name (join_host_port srv.remote_addr (itoa srv.remote_port))

  abbrev pub with_client : TohServer → Result Text (Server G)
  unfolding new_toh_client
  with_client srv = elim (new_toh_client srv) [
    | err e ↦ err e
    | ok c ↦ ok (record {
      client = c;
      password = srv.password;
      latency = five_minutes;
      latency_ipv6 = five_minutes;
    })
  ]

  unfoldable pub load_server : TohServer → Result Text (Server G)
  unfolding with_client
  load_server srv =
      if ltb 0 (length srv.keepalive)
      then (elim (parse_duration srv.keepalive) [ err e ↦ err e | ok _ ↦ with_client srv ])
      else with_client srv

  -- `none` is the panic where the configuration has no server.
  unfoldable pub new_s5_server : Options → Option (Result Text (S5Server G))
  unfolding load_server socks5_options
  new_s5_server opts = elim opts.cfg.server [
    | none ↦ none
    | some srv ↦
        let opts' = record opts { cfg = with_defaults srv opts.cfg } in
        some (elim (load_server srv) [
          | err e ↦ err e
          | ok server ↦
              ok (record { opts = opts'; socks5_opts = socks5_options opts'; server = server })
        ])
  ]

-- `Run`, up to the server that listens.
unfoldable pub run :
    {G : Type 0} → (Text → Result Text Proxy.TcpAddr) → S5Server G → Result Text Proxy.Options
unfolding Proxy.new_socks5_server
run resolve s = Proxy.new_socks5_server resolve s.socks5_opts

-- The functions that dial; the streams of a client are opened over its connection.
module _ {G C : Type 0} (open_stream : G → List (Text × Text) → Result Text C)
    (first : C → Result Text Text) (s : S5Server G) where
  unfoldable pub dial : Text → Text → Result DialError C
  unfolding dial_context
  dial addr network =
      dial_context (open_stream s.server.client) first s.server.password network addr

  unfoldable pub dial_tcp : Text → Result DialError C
  unfolding dial
  dial_tcp addr = dial addr (text "tcp")

  unfoldable pub dial_udp : Text → Result DialError C
  unfolding dial
  dial_udp addr = dial addr (text "udp")
