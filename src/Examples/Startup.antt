-- ===== src/Examples/Startup.antt =====
-- The theorems on what the programs begin with, at small configurations and files.
use toh.Base.{
  ℕ, ◌≡◌, refl, ◌↔◌, Text, text, true, false, Text-discrete, none, some, [], ◌∷◌, ◌++◌, Result, ok,
  err, arith,
}
use toh.Base.Dict.{lookup}
use toh.Base.Int.{ℤ, pos}
use toh.Acl.Storage.{Codec, Disk, no_faults}
use toh.Acl.Storage.Restart.{written}
use toh.Acl.Access.{check}
use toh.Base.Net.{ip_string, join_host_port, decimal}
use toh.Client.{dial_context, tcp_or_udp}
use toh.Client.Reach.{opened, first_message, Reaches, IsOk}
use toh.Socks5.Udp.{Datagram, Peer, decode_socks5_packet, pipe_socks5_udp}
use toh.Cmd.S5.{dial_udp}
use toh.Cmd.S5.Datagrams.{Remote, relay_peer, relay_iff}
use toh.Server.Start as Server
use toh.Server.Start.{new_toh_server}
use toh.Server.Start.First.{default_key, first_start_connects}
use toh.Server.Stream.{World, Served, Trace, to_remote}
use toh.Socks5.Handshake.{Io, NetConn, handshake}
use toh.Socks5.Handshake.Requests.{domain, request, exchange}
use toh.Cmd.S5.{
  Config, Options, S5Server, TohServer, five_minutes, new_s5_server, new_toh_client, load_server,
  socks5_options, with_defaults, dial_tcp,
}
use toh.Cmd.S5.Flags.{Flags, Library, Machine, default_options, process_options}
use toh.Cmd.S5.Flags.FirstStart.{process_options_twice}
use toh.Cmd.S5.Startup.{carried, IsConnected, connect_iff}
use toh.Examples.Data.{external, two_users}

-- A stand-in for the codec of the file that knows one list.
abbrev one_list : Codec
one_list = record { encode = λ ks. text "keys"; decode = λ s. ok (written two_users) }

abbrev toh_server : TohServer
toh_server = record {
  password = text "root";
  remote_addr = text "toh.sh";
  remote_port = pos 443;
  server_name = text "toh.sh";
  healthcheck = [];
  keepalive = [];
}

abbrev config : Config
config = record {
  listen = text "127.0.0.1:2080";
  advertise = none;
  server = some toh_server;
  local_net = none;
}

abbrev options : Options
options = record {
  cfg = config;
  listen = [];
  data_root = text "/root/.config/toh";
  dns_fake = [];
  dns_listen = text "127.0.0.1:2053";
  dns_upstream = [];
  dns_evict = pos 7200000000000;
}

-- The gRPC connection is the number 7.
abbrev dial_grpc : Text → Text → Result Text ℕ
dial_grpc name addr = ok 7

abbrev no_duration : Text → Result Text ℤ
no_duration s = err (text "no unit")

abbrev s5_server : S5Server ℕ
s5_server = record {
  opts = record options { cfg = with_defaults toh_server config };
  socks5_opts = record { listen = text "127.0.0.1:2080"; advertise_ip = []; advertise_port = 0 };
  server = record {
    client = 7;
    password = text "root";
    latency = five_minutes;
    latency_ipv6 = five_minutes;
  };
}

s5_server_made : new_s5_server no_duration dial_grpc options ≡ some (ok s5_server)
unfolding new_s5_server load_server new_toh_client socks5_options
s5_server_made = refl

abbrev world : World
world = record {
  dial = λ network addr. ok (text "10.0.0.1:80");
  send = λ m. none;
  first_copy = to_remote none;
}

abbrev io : Io
io = record { incoming = []; outgoing = []; broken = false; closed = false; address = [] }

abbrev without_address : Served × Trace → NetConn
without_address c = record { local_addr = none }

connect_iff_example :
    let dials : Text → Result Text NetConn = λ d. carried without_address (
      dial_tcp
        (λ (g : ℕ) md. opened two_users world (text "127.0.0.1") md)
        first_message
        s5_server
        d) in
    IsConnected without_address
      (handshake s5_server.socks5_opts dials
        (exchange io (0 ∷ []) (request 1 (domain (text "a.org")) 80 ++ []) [])).0
    ↔ ((check two_users (text "root") (text "tcp") (join_host_port (text "a.org") (decimal 80))
          ≡ none)
        × Reaches world (text "tcp") (join_host_port (text "a.org") (decimal 80)))
connect_iff_example =
    connect_iff no_duration dial_grpc two_users world (text "127.0.0.1") without_address options
      toh_server s5_server s5_server.socks5_opts io (0 ∷ []) (domain (text "a.org")) 80 [] [] refl
      s5_server_made refl (omega arith) (omega arith) (λ c e. cc e)

abbrev flags : Flags
flags = record {
  config = [];
  listen = [];
  dns = [];
  dns_listen = text "127.0.0.1:2053";
  dns_evict = text "2h";
  dns_fake = [];
}

-- A stand-in for the libraries that knows one configuration and one directory.
abbrev library : Library
library = record {
  encode = λ c. text "config";
  decode = λ s. ok default_options;
  dir = λ path. text "/root/.config/toh";
  join = λ parts. text "/root/.config/toh/socks5.json";
  parse_duration = λ s. ok (pos 7200000000000);
}

abbrev machine : Machine
machine = record {
  home = ok (text "/root");
  files = [];
  open_fault = none;
  mkdir_fault = none;
  create_fault = none;
}

process_options_twice_example :
    let (r, w') = process_options library flags machine in
    (r ≡ ok (record options { cfg = default_options }))
    × (lookup (text "/root/.config/toh/socks5.json") w'.files ≡ some (text "config"))
    × (process_options library flags w' ≡ (r, w'))
unfolding lookup Text-discrete
process_options_twice_example =
    process_options_twice library flags machine (pos 7200000000000) (text "/root")
      (text "/root/.config/toh/socks5.json") refl refl refl (refl, refl, refl) refl refl

-- The server finds no file.
abbrev empty_disk : Disk
empty_disk = record { acl_file = none; admin_key_file = none }

abbrev server_options : Server.Options
server_options = record { acl = text "acl.json"; buf = 32768; admin_key = text "sixteen or longer" }

first_start_connects_example :
    let (started, disk') =
      new_toh_server external one_list (text "random") no_faults server_options empty_disk in
    (s : Server.TohServer) × (started ≡ ok s)
    × (disk'.acl_file ≡ some (text "keys"))
    × (IsOk (
          dial_context
            (opened s.acl world (text "127.0.0.1"))
            first_message
            (default_key external one_list (text "random"))
            (text "tcp")
            (text "a.org:80"))
        ↔ ((tcp_or_udp (text "tcp") ≡ true) × Reaches world (text "tcp") (text "a.org:80")))
first_start_connects_example =
    first_start_connects external one_list (text "random") server_options empty_disk world
      (text "127.0.0.1") (text "tcp") (text "a.org:80") refl refl

-- The address behind the server answers what it gets.
abbrev echo : Text → Remote
echo addr content = (none, ok content)

-- A packet for port 53 of 10.0.0.1.
abbrev packet : Text
packet = 0 ∷ 0 ∷ 0 ∷ 1 ∷ 10 ∷ 0 ∷ 0 ∷ 1 ∷ 0 ∷ 53 ∷ text "data"

abbrev datagram : Datagram
datagram = record { ip = 10 ∷ 0 ∷ 0 ∷ 1 ∷ []; port = 53; payload = text "data" }

relay_iff_example :
    let dials : Text → Text → Peer = λ to. relay_peer (echo to) (
      dial_udp
        (λ (g : ℕ) md. opened two_users world (text "127.0.0.1") md)
        first_message
        s5_server
        to) in
    IsOk (pipe_socks5_udp dials packet) ↔ (
      (check two_users
          (text "root")
          (text "udp")
          (join_host_port (ip_string datagram.ip) (decimal 53))
        ≡ none)
      × Reaches world (text "udp") (join_host_port (ip_string datagram.ip) (decimal 53))
      × ((echo (text "10.0.0.1:53") datagram.payload).0 ≡ none)
      × IsOk (echo (text "10.0.0.1:53") datagram.payload).1)
unfolding decode_socks5_packet
relay_iff_example =
    relay_iff no_duration dial_grpc two_users world (text "127.0.0.1") echo options toh_server
      s5_server packet datagram refl s5_server_made refl
