-- ===== src/Cmd/S5/Flags/FirstStart.antt =====
-- The first two starts of `toh s5` (cmd/s5/cmd.go).
use toh.Base.{Text, same, ◌≡◌, some, if◌then◌else◌, none, [], ok, arith}
use toh.Base.Int.{ℤ}
use toh.Base.Dict.{lookup, lookup-insert}
use toh.Cmd.S5.Flags.{
  Flags, Library, Machine, open_file, default_options, default_path, options, first_start,
  read_config, process_options,
}

module _ (lib : Library) (flags : Flags) where
  -- Without a file of its own in the flags, where no system call fails, there is no file yet, and
  -- the decoder gives the default configuration back: the first start uses the default
  -- configuration and writes it to the default path and nothing anywhere else, and a second start
  -- gives the same options and leaves the files as they are.
  pub process_options_twice :
      (w : Machine) (evict : ℤ) (home j : Text)
      → flags.config ≡ []
      → lib.parse_duration flags.dns_evict ≡ ok evict
      → w.home ≡ ok home
      → (w.open_fault ≡ none) × (w.mkdir_fault ≡ none) × (w.create_fault ≡ none)
      → lookup (default_path lib flags home) w.files ≡ none
      → lib.decode (lib.encode default_options) ≡ ok default_options
      → let (r, w') = process_options lib flags w in
        (r ≡ ok (options lib flags evict home (default_path lib flags home) default_options))
        × (lookup j w'.files ≡ (
            if same (default_path lib flags home) j
            then some (lib.encode default_options)
            else lookup j w.files))
        × (process_options lib flags w' ≡ (r, w'))
  unfolding process_options read_config first_start open_file
  process_options_twice w evict home j own lasts housed (opens, makes, creates) missing trip =
      let path = default_path lib flags home in
      ground (
        arith,
        lookup-insert path path (lib.encode default_options) w.files,
        lookup-insert j path (lib.encode default_options) w.files,
      )
