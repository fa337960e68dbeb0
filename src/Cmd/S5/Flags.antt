-- ===== src/Cmd/S5/Flags.antt =====
-- From the flags of `toh s5` to its options (cmd/s5/cmd.go). The flags are what cobra has parsed.
pub mod FirstStart
use toh.Base.{
  Text, text, same, ◌≡◌, Option, none, some, List, [], ◌∷◌, if◌then◌else◌, Result, ok, err, ◌>>=◌,
  arith,
}
use toh.Base.Int.{ℤ, pos}
use toh.Base.Dict.{Dict, lookup, insert, lookup-insert}
use toh.Socks5.Options as Proxy
use toh.Socks5.Options.{TcpAddr}
use toh.Cmd.Cobra.{Flag, string_flag, slice_flag, no_args, Command, Reader}
use toh.Cmd.S5.{Config, Options, new_s5_server, run}

pub record Flags : Type 0 where
  pub config : Text
  pub listen : Text
  pub dns : Text
  pub dns_listen : Text
  pub dns_evict : Text
  pub dns_fake : List Text

-- The JSON form of a configuration, the package path/filepath, and `time.ParseDuration`.
pub record Library : Type 0 where
  pub encode : Config → Text
  pub decode : Text → Result Text Config
  pub dir : Text → Text
  pub join : List Text → Text
  pub parse_duration : Text → Result Text ℤ

-- The home directory and the files; and the errors of the system calls, where they fail for a
-- reason that the files do not show. A write to an open file succeeds.
pub record Machine : Type 0 where
  pub home : Result Text Text
  pub files : Dict Text
  pub open_fault : Option Text
  pub mkdir_fault : Option Text
  pub create_fault : Option Text

pub data Opened : Type 0 where
  content : Text → Opened
  not_there : Opened
  not_opened : Text → Opened

unfoldable pub open_file : Machine → Text → Opened
unfolding lookup
open_file w path = elim w.open_fault [
  | some e ↦ not_opened e
  | none ↦ elim (lookup path w.files) [ some c ↦ content c | none ↦ not_there ]
]

abbrev pub default_options : Config
default_options = record {
  listen = text "127.0.0.1:2080";
  advertise = none;
  server = some (record {
    password = text "112qcPA4xPxh7PQV3fyTMEkfByEEn84EjNeMmskVTBVy2aCa4ipX";
    remote_addr = text "fill-in-your-server-here.toh.sh";
    remote_port = pos 443;
    server_name = text "fill-in-your-server-here.toh.sh";
    healthcheck = [];
    keepalive = [];
  });
  local_net = none;
}

module _ (lib : Library) (flags : Flags) where
  abbrev pub config_dir : Text → Text
  config_dir home = lib.join (home ∷ text ".config" ∷ text "toh" ∷ [])

  abbrev pub default_path : Text → Text
  default_path home = lib.join (home ∷ text ".config" ∷ text "toh" ∷ text "socks5.json" ∷ [])

  -- The options with the directory that the deferred call computes from the path of the file.
  abbrev pub options : ℤ → Text → Text → Config → Options
  options evict home path cfg = record {
    cfg = cfg;
    listen = flags.listen;
    data_root = if same (lib.dir path) (text ".") then config_dir home else lib.dir path;
    dns_fake = flags.dns_fake;
    dns_listen = flags.dns_listen;
    dns_upstream = flags.dns;
    dns_evict = evict;
  }

  abbrev pub decoded : ℤ → Text → Text → Text → Result Text Options
  decoded evict home path c = elim (lib.decode c) [
    | err e ↦ err e
    | ok cfg ↦ ok (options evict home path cfg)
  ]

  -- The file that is written where there is none.
  unfoldable pub first_start : ℤ → Text → Text → Machine → Result Text Options × Machine
  unfolding insert
  first_start evict home path w = elim w.mkdir_fault [
    | some e ↦ (err e, w)
    | none ↦ elim w.create_fault [
      | some e ↦ (err e, w)
      | none ↦ (
        ok (options evict home path default_options),
        record w { files = insert path (lib.encode default_options) w.files },
      )
    ]
  ]

  -- From the home directory on.
  unfoldable pub read_config : ℤ → Text → Machine → Result Text Options × Machine
  unfolding open_file first_start
  read_config evict home w =
      if same flags.config []
      then (elim (open_file w (default_path home)) [
        | content c ↦ (decoded evict home (default_path home) c, w)
        | not_opened e ↦ (err e, w)
        | not_there ↦ first_start evict home (default_path home) w
      ])
      else (elim (open_file w flags.config) [
        | content c ↦ (decoded evict home flags.config c, w)
        | not_opened e ↦ (err e, w)
        | not_there ↦ (err (text "no such file or directory"), w)
      ])

  unfoldable pub process_options : Machine → Result Text Options × Machine
  unfolding read_config
  process_options w = elim (lib.parse_duration flags.dns_evict) [
    | err e ↦ (err e, w)
    | ok evict ↦ elim w.home [ err e ↦ (err e, w) | ok home ↦ read_config evict home w ]
  ]

abbrev string_of : Text → Text → Flag
string_of name default = record { name = name; kind = string_flag; default = default }

-- What `init` declares.
abbrev pub command : Command (Unit {0})
command = record {
  path = text "toh" ∷ text "s5" ∷ [];
  args = no_args;
  flags =
      string_of (text "config") []
      ∷ string_of (text "listen") []
      ∷ string_of (text "dns") []
      ∷ string_of (text "dns-listen") (text "127.0.0.1:2053")
      ∷ string_of (text "dns-evict") (text "2h")
      ∷ record { name = text "dns-fake"; kind = slice_flag; default = [] }
      ∷ [];
  persistent_flags = [];
  required = [];
  action = tt;
}

module _ {F : Type 0} (r : Reader F) where
  -- The flags in the order of the code, up to the one that is read after the duration has been parsed.
  unfoldable pub read_flags : F → Result Text Flags
  read_flags f = do
    listen ← r.get_string f (text "listen")
    dns ← r.get_string f (text "dns")
    dns_listen ← r.get_string f (text "dns-listen")
    dns_fake ← r.get_string_slice f (text "dns-fake")
    dns_evict ← r.get_string f (text "dns-evict")
    ok (record {
      config = [];
      listen = listen;
      dns = dns;
      dns_listen = dns_listen;
      dns_evict = dns_evict;
      dns_fake = dns_fake;
    })

  unfoldable pub process_flags : Library → F → Machine → Result Text Options × Machine
  unfolding read_flags process_options
  process_flags lib f w = elim (read_flags f) [
    | err e ↦ (err e, w)
    | ok flags ↦ elim (lib.parse_duration flags.dns_evict) [
      | err e ↦ (err e, w)
      | ok evict ↦ elim (r.get_string f (text "config")) [
        | err e ↦ (err e, w)
        | ok config ↦ process_options lib (record flags { config = config }) w
      ]
    ]
  ]

  -- `startAction`, up to the server that listens.
  unfoldable pub start_action :
      {G : Type 0}
      → Library
      → (Text → Text → Result Text G)
      → (Text → Result Text TcpAddr)
      → F
      → Machine
      → Option (Result Text Proxy.Options) × Machine
  unfolding process_flags new_s5_server run
  start_action lib dial_grpc resolve f w =
      let (processed, w') = process_flags lib f w in
      (
        elim processed [
          | err e ↦ some (err e)
          | ok opts ↦ elim (new_s5_server lib.parse_duration dial_grpc opts) [
            | none ↦ none
            | some (err e) ↦ some (err e)
            | some (ok s) ↦ some (run resolve s)
          ]
        ],
        w',
      )
