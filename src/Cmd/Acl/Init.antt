-- ===== src/Cmd/Acl/Init.antt =====
-- What the commands of `toh acl` need before they run (cmd/acl/cmd.go, `initAction`), and where the
-- server leaves it (server/acl/acl.go, `NewACL`).
use toh.Base.{
  ◌≤◌, Text, text, ◌≡◌, Option, none, some, length, ◌==◌, if◌then◌else◌, Result, ok, err, arith,
}
use toh.Acl.State.{External}
use toh.Acl.Storage.{Codec, Disk, no_faults, open_acl, new_acl}

-- The key of the flag, or that of the file, which is `none` where it cannot be opened, and may fail to
-- be read.
unfoldable pub admin_key_or_file : Text → Option (Result Text Text) → Result Text Text
admin_key_or_file admin_key file =
    if length admin_key == 0
    then (elim file [ none ↦ ok admin_key | some content ↦ content ])
    else ok admin_key

-- The server and the key with which the client of the admin API is made.
unfoldable pub init_action : Text → Text → Option (Result Text Text) → Result Text (Text × Text)
unfolding admin_key_or_file
init_action server admin_key file = elim (admin_key_or_file admin_key file) [
  | err e ↦ err e
  | ok key ↦
      if length server == 0
      then err (text "required flag `server` not set")
      else if length key == 0
      then err (text "required flag `admin-key` not set")
      else ok (server, key)
]

-- A file that can be read if it is there.
abbrev pub readable : Option Text → Option (Result Text Text)
readable none = none
readable (some content) = some (ok content)

open_acl-admin_key_file :
    (x : External) (json : Codec) (key buf : Text) (disk : Disk)
    → (open_acl x json key buf no_faults disk).1.admin_key_file ≡ disk.admin_key_file
unfolding open_acl
open_acl-admin_key_file x json key buf disk = ground arith

-- Where the server has been given an admin key of at least 16 bytes and no system call fails, a command
-- without a key of its own, on the same machine, uses the key that `NewACL` has written, and one with a
-- key uses its own.
init_action-new_acl :
    (x : External) (json : Codec) (admin_key buf server own : Text) (disk : Disk)
    → 16 ≤ length admin_key
    → 1 ≤ length server
    → let (_, disk') = new_acl x json admin_key buf no_faults disk in
      init_action server own (readable disk'.admin_key_file)
      ≡ ok (server, (if length own == 0 then admin_key else own))
unfolding init_action new_acl
init_action-new_acl x json admin_key buf server own disk long given =
    let kept =
      open_acl-admin_key_file x json admin_key buf
        (record disk { admin_key_file = some admin_key }) in
    ground (arith, kept)
