-- ===== src/Cmd/Serve.antt =====
-- The program `toh serve` (cmd/serve/cmd.go): its flags, and the server that it starts.
use toh.Base.{Text, text, text, Option, [], ◌∷◌, Result, ok, err, ◌>>=◌}
use toh.Acl.State.{External, AclError}
use toh.Acl.Storage.{Codec, Disk, Faults}
use toh.Server.Start.{Options, new_toh_server, Ran, run}
use toh.Cmd.Cobra.{string_flag, no_args, Command, Reader}

abbrev pub command : Command (Unit {0})
command = record {
  path = text "toh" ∷ text "serve" ∷ [];
  args = no_args;
  flags =
      record { name = text "acl"; kind = string_flag; default = text "acl.json" }
      ∷ record { name = text "admin-key"; kind = string_flag; default = [] }
      ∷ record { name = text "copy-buf"; kind = string_flag; default = text "32ki" }
      ∷ [];
  persistent_flags = [];
  required = [];
  action = tt;
}

module _ {F : Type 0} (r : Reader F) (x : External) where
  unfoldable pub process_server_options : F → Result Text Options
  process_server_options f = do
    acl ← r.get_string f (text "acl")
    admin_key ← r.get_string f (text "admin-key")
    copy_buf ← r.get_string f (text "copy-buf")
    buf ← x.parse_bytes copy_buf
    ok (record { acl = acl; buf = buf; admin_key = admin_key })

  -- What goes wrong before the server runs.
  pub data StartError : Type 0 where
    bad_options : Text → StartError
    not_started : AclError → StartError

  -- The disk holds the file that the options name; the rest is what `NewTohServer` and `Run` take.
  unfoldable pub start_action :
      {L : Type 0}
      → Codec
      → Text
      → Faults
      → (Text → Result Text L)
      → (L → Option Text)
      → Text
      → F
      → Disk
      → Result StartError Ran × Disk
  unfolding process_server_options new_toh_server run
  start_action json random faults listen serve port f disk = elim (process_server_options f) [
    | err e ↦ (err (bad_options e), disk)
    | ok options ↦
        let (started, disk') = new_toh_server x json random faults options disk in
        (elim started [ err e ↦ err (not_started e) | ok s ↦ ok (run listen serve port) ], disk')
  ]
