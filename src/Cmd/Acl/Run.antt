-- ===== src/Cmd/Acl/Run.antt =====
-- The commands of `toh acl` from their flags on, and how they are declared (cmd/acl).
pub mod Declared
use toh.Base.{ℕ, Text, text, Bool, Option, none, some, List, [], ◌∷◌, ◌++◌, Result, ok, err, ◌>>=◌}
use toh.Api.{BytesUsage, Limit, ApiKey, Request, Response, Json}
use toh.Api.Client.{ClientError, acl_show}
use toh.Cmd.Cobra.{
  Kind, string_flag, bool_flag, Flag, ArgPolicy, no_args, legacy_args, exact_args, minimum_args,
  Command, Reader,
}
use toh.Cmd.Acl.{
  LimitOptions, add_whitelist, del_whitelist, reset_whitelist, add_blacklist, del_blacklist,
  reset_blacklist, acl_limit, acl_usage, acl_new, acl_del,
}

-- What a command prints; the lists, limits and usages as JSON.
pub data Printed : Type 0 where
  line : Text → Printed
  list : Option (List Text) → Printed
  limit : Limit → Printed
  usage : BytesUsage → Printed
  keys : List ApiKey → Printed
  help : Printed

pub data CommandError : Type 0 where
  flag_error : Text → CommandError
  client_error : ClientError → CommandError

-- The functions that are called; a command that only has others below it prints its help.
pub data Action : Type 0 where
  new_key del_key limit_key usage_key show_keys : Action
  whitelist_add whitelist_del whitelist_reset : Action
  blacklist_add blacklist_del blacklist_reset : Action
  no_action : Action

unfoldable pub process_limit_options : {F : Type 0} → Reader F → F → Result Text LimitOptions
process_limit_options r f = do
  key ← r.get_string f (text "key")
  reset ← r.get_bool f (text "reset")
  bytes ← r.get_string f (text "bytes")
  in_bytes ← r.get_string f (text "in-bytes")
  out_bytes ← r.get_string f (text "out-bytes")
  ok (record {
    key = key;
    reset = reset;
    bytes = bytes;
    in_bytes = in_bytes;
    out_bytes = out_bytes;
  })

module _ {W F : Type 0} (json : Json) (admin_key : Text)
    (transport : Request → W → Result Text Response × W) (r : Reader F) where
  abbrev pub Outcome : Type 0
  Outcome = Result CommandError Printed × W

  -- What a call gives, to be printed.
  abbrev pub printed : {A : Type 0} → (A → Printed) → Result ClientError A × W → Outcome
  printed show (ok a, w) = (ok (show a), w)
  printed show (err e, w) = (err (client_error e), w)

  -- A flag whose error ends the command, and what follows it.
  abbrev pub with_flag : {A : Type 0} → Result Text A → (A → W → Outcome) → W → Outcome
  with_flag (ok a) k w = k a w
  with_flag (err e) k w = (err (flag_error e), w)

  abbrev pub with_key : F → (Text → W → Outcome) → W → Outcome
  with_key f = with_flag (r.get_string f (text "key"))

  unfoldable pub run : Action → F → List Text → W → Outcome
  unfolding process_limit_options
  run new_key f args =
      with_flag (r.get_string f (text "name"))
        (λ name w. printed line (acl_new json admin_key transport name w))
  run del_key f args = with_key f (λ key w. printed line (acl_del json admin_key transport key w))
  run limit_key f args =
      with_flag (process_limit_options r f)
        (λ opts w. printed limit (acl_limit json admin_key transport opts w))
  run usage_key f args = with_flag (r.get_bool f (text "reset")) (λ reset.
      with_key f (λ key w. printed usage (acl_usage json admin_key transport reset key w)))
  run show_keys f args = λ w. printed keys (acl_show json admin_key transport w)
  run whitelist_add f args =
      with_key f (λ key w. printed list (add_whitelist json admin_key transport args key w))
  run whitelist_del f args =
      with_key f (λ key w. printed list (del_whitelist json admin_key transport args key w))
  run whitelist_reset f args =
      with_key f (λ key w. printed list (reset_whitelist json admin_key transport args key w))
  run blacklist_add f args =
      with_key f (λ key w. printed list (add_blacklist json admin_key transport args key w))
  run blacklist_del f args =
      with_key f (λ key w. printed list (del_blacklist json admin_key transport args key w))
  run blacklist_reset f args =
      with_key f (λ key w. printed list (reset_blacklist json admin_key transport args key w))
  run no_action f args = λ w. (ok help, w)

abbrev string_of : Text → Text → Flag
string_of name default = record { name = name; kind = string_flag; default = default }

abbrev below : List Text → List Text
below names = text "toh" ∷ text "acl" ∷ names

-- A command with a flag for the key, which is required.
abbrev on_key : List Text → ArgPolicy → List Flag → Action → Command Action
on_key names args flags action = record {
  path = below names;
  args = args;
  flags = string_of (text "key") [] ∷ flags;
  persistent_flags = [];
  required = text "key" ∷ [];
  action = action;
}

-- A command without flags of its own.
abbrev without_flags : List Text → ArgPolicy → Action → Command Action
without_flags names args action = record {
  path = below names;
  args = args;
  flags = [];
  persistent_flags = [];
  required = [];
  action = action;
}

-- The commands that have the key for all below them.
abbrev for_list : Text → Command Action
for_list name = record {
  path = below (name ∷ []);
  args = legacy_args;
  flags = [];
  persistent_flags = string_of (text "key") [] ∷ [];
  required = text "key" ∷ [];
  action = no_action;
}

-- What `init` declares.
abbrev pub commands : List (Command Action)
commands =
    record {
      path = below [];
      args = no_args;
      flags = [];
      persistent_flags =
          string_of (text "server") (text "http://127.0.0.1:9986")
          ∷ string_of (text "admin-key") []
          ∷ [];
      required = [];
      action = no_action;
    }
    ∷ record {
      path = below (text "new" ∷ []);
      args = no_args;
      flags = string_of (text "name") [] ∷ [];
      persistent_flags = [];
      required = [];
      action = new_key;
    }
    ∷ on_key (text "del" ∷ []) no_args [] del_key
    ∷ on_key (text "limit" ∷ []) no_args
        (record { name = text "reset"; kind = bool_flag; default = text "false" }
          ∷ string_of (text "bytes") []
          ∷ string_of (text "in-bytes") []
          ∷ string_of (text "out-bytes") []
          ∷ [])
        limit_key
    ∷ on_key (text "usage" ∷ []) no_args
        (record { name = text "reset"; kind = bool_flag; default = text "false" } ∷ []) usage_key
    ∷ without_flags (text "show" ∷ []) no_args show_keys
    ∷ for_list (text "whitelist")
    ∷ without_flags (text "whitelist" ∷ text "add" ∷ []) (exact_args 1) whitelist_add
    ∷ without_flags (text "whitelist" ∷ text "del" ∷ []) (exact_args 1) whitelist_del
    ∷ without_flags (text "whitelist" ∷ text "reset" ∷ []) legacy_args whitelist_reset
    ∷ for_list (text "blacklist")
    ∷ without_flags (text "blacklist" ∷ text "add" ∷ []) (minimum_args 1) blacklist_add
    ∷ without_flags (text "blacklist" ∷ text "del" ∷ []) (minimum_args 1) blacklist_del
    ∷ without_flags (text "blacklist" ∷ text "reset" ∷ []) legacy_args blacklist_reset
    ∷ []
