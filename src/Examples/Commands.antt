-- ===== src/Examples/Commands.antt =====
-- The theorems on cmd/acl at a server where one user has a whitelist.
use toh.Base.{
  ◌≡◌, ◌≢◌, refl, Text, Text-discrete, text, same, true, Option, none, some, List, [], ◌∷◌, inl,
  inr, if◌then◌else◌, ok,
}
use toh.Base.Dict.{lookup}
use toh.Spec.Tools.{slice_index, slice_index_from}
use toh.Api.{Limit, Json, no_limit, no_usage, tidy_list}
use toh.Acl.State.{Acl}
use toh.Acl.Access.{is_admin_access, admin_enabled, check, check_key}
use toh.Acl.Change.{apply_bytes, apply_acl_key_limit, get_limit}
use toh.Admin.Effects.{server}
use toh.Cmd.Acl.{elements, del_items, update_whitelist, del_whitelist}
use toh.Cmd.Acl.InForce.{sent, update_whitelist_in_force, del_whitelist_opens}
use toh.Cmd.Cobra.{string_flag, no_args, Command, Reader}
use toh.Cmd.Acl.Run.{Action, del_key, run}
use toh.Cmd.Acl.Run.Declared.{IsRead, commands-IsRead}
use toh.Examples.Data.{external, alice_key, two_users, stored}

abbrev old_list : List Text
old_list = text "a.org/tcp" ∷ []

abbrev listed_limit : Limit
listed_limit = record no_limit { whitelist = some old_list }

-- The first user's whitelist is stored too.
abbrev listed : Acl
listed = record two_users {
  sto_keys =
      record (stored (text "alice")) { limit = some listed_limit } ∷ stored (text "bob") ∷ [];
}

-- A stand-in for encoding/json that knows two limits.
abbrev two_limit_json : Json
two_limit_json = record {
  encode_limit = λ o. elim o [
    | none ↦ text "null"
    | some l ↦ elim l.whitelist [ none ↦ text "no list" | some _ ↦ text "a list" ]
  ];
  decode_limit = λ s. if same s (text "a list") then ok listed_limit else ok no_limit;
  encode_usage = λ u. text "a usage";
  decode_usage = λ s. ok no_usage;
  encode_keys = λ ks. text "keys";
  decode_keys = λ s. ok [];
}

alice_listed : lookup (text "alice") listed.keys ≡ some alice_key
unfolding lookup Text-discrete
alice_listed = refl

admin_access : is_admin_access listed (text "root") ≡ true
unfolding is_admin_access admin_enabled Text-discrete
admin_access = refl

alice_has_name : text "alice" ≢ []
alice_has_name e = cc

abbrev clear : Option (List Text) → Option (List Text)
clear old = del_items old_list (elements old) none

update_whitelist_in_force_example :
    let (printed, a) =
      update_whitelist two_limit_json
        (text "root")
        (server external two_limit_json [])
        clear
        (text "alice")
        listed in
    (printed ≡ ok (sent clear (text "alice") listed).whitelist)
    × (lookup (text "alice") a.keys ≡ some (record alice_key { whitelist = none }))
    × (none ≡ tidy_list (sent clear (text "alice") listed).whitelist)
unfolding Text-discrete get_limit del_items slice_index slice_index_from apply_acl_key_limit
    apply_bytes
update_whitelist_in_force_example =
    update_whitelist_in_force external two_limit_json [] listed (text "root") admin_access
      (text "alice") alice_has_name clear refl refl alice_key
      (record alice_key { whitelist = none }) alice_listed refl

del_whitelist_opens_example :
    let (_, a) =
      del_whitelist two_limit_json
        (text "root")
        (server external two_limit_json [])
        old_list
        (text "alice")
        listed in
    check a (text "alice") (text "udp") (text "z.org") ≡ check_key a (text "alice")
unfolding Text-discrete get_limit del_items slice_index slice_index_from apply_acl_key_limit
    apply_bytes
del_whitelist_opens_example =
    del_whitelist_opens external two_limit_json [] listed (text "root") admin_access (text "alice")
      alice_has_name old_list refl refl alice_key (record alice_key { whitelist = none })
      alice_listed refl (inl refl, tt) refl (text "udp") (text "z.org")

-- Flags that all have a value, which is the same for each.
abbrev all_set : Reader (Unit {0})
all_set = record {
  get_string = λ f name. ok (text "alice");
  get_bool = λ f name. ok true;
  get_string_slice = λ f name. ok [];
}

-- The command that deletes a key.
abbrev delete : Command Action
delete = record {
  path = text "toh" ∷ text "acl" ∷ text "del" ∷ [];
  args = no_args;
  flags = record { name = text "key"; kind = string_flag; default = [] } ∷ [];
  persistent_flags = [];
  required = text "key" ∷ [];
  action = del_key;
}

commands-IsRead_example :
    IsRead two_limit_json (text "root") (server external two_limit_json []) all_set (
      run two_limit_json
        (text "root")
        (server external two_limit_json [])
        all_set
        del_key
        tt
        []
        listed)
unfolding Text-discrete
commands-IsRead_example =
    commands-IsRead two_limit_json (text "root") (server external two_limit_json []) all_set delete
      tt [] listed (inr (inr (inl refl))) ((_, refl), ((_, refl), ((_, refl), tt)))
