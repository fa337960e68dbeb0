-- ===== src/Cmd/Main.antt =====
-- The root of the commands (main.go), and what it does before one of them runs.
use toh.Base.{Text, text, [], ◌∷◌, Result, ok, err}
use toh.Cmd.Cobra.{string_flag, legacy_args, Command, Reader}

abbrev pub root : Command (Unit {0})
root = record {
  path = text "toh" ∷ [];
  args = legacy_args;
  flags = [];
  persistent_flags =
      record { name = text "log-level"; kind = string_flag; default = text "info" } ∷ [];
  required = [];
  action = tt;
}

-- `initAction`; `parse_level` is that of logrus, and the result is the level that is set.
unfoldable pub init_action : {F L : Type 0} → Reader F → (Text → Result Text L) → F → Result Text L
init_action r parse_level f = elim (r.get_string f (text "log-level")) [
  | err e ↦ err e
  | ok level ↦ parse_level level
]
