-- ===== src/Server/Start.antt =====
-- How the server starts (server/server.go, `NewTohServer` and `Run`). The pool of buffers and the
-- channel of traffic events are left out: nothing takes a buffer, and nothing sends an event.
pub mod First
use toh.Base.{ℕ, Text, text, same, Option, none, some, ◌++◌, [], if◌then◌else◌, Result, ok, err}
use toh.Acl.State.{Acl, External, AclError}
use toh.Acl.Storage.{Codec, Disk, Faults, new_acl}

-- `acl` is the path of the file; `buf` is a uint64.
pub record Options : Type 0 where
  pub acl : Text
  pub buf : ℕ
  pub admin_key : Text

-- The admin API has the same list.
pub record TohServer : Type 0 where
  pub options : Options
  pub acl : Acl

-- The disk holds the file at the path of the options. `random` is what `rand.Reader` gives.
unfoldable pub new_toh_server :
    External → Codec → Text → Faults → Options → Disk → Result AclError TohServer × Disk
unfolding new_acl
new_toh_server x json random faults options disk =
    let (loaded, disk') = new_acl x json options.admin_key random faults disk in
    (elim loaded [ err e ↦ err e | ok a ↦ ok (record { options = options; acl = a }) ], disk')

-- How `Run` ends: `logrus.Fatalf` stops the program.
pub data Ran : Type 0 where
  fatal : Text → Ran
  returned : Ran

-- `net.Listen` and `Serve` are functions of the libraries; `port` is the variable PORT of the
-- environment.
unfoldable pub run : {L : Type 0} → (Text → Result Text L) → (L → Option Text) → Text → Ran
run listen serve port = elim (listen (text ":" ++ (if same port [] then text "8080" else port))) [
  | err e ↦ fatal (text "net.Listen: " ++ e)
  | ok listener ↦ elim (serve listener) [ some e ↦ fatal e | none ↦ returned ]
]
