-- ===== src/Acl/Access.antt =====
-- Who may use the server, and for which addresses (server/acl/acl.go).
pub mod Policy
pub mod Allowance
use toh.Base.{
  ℕ, Text, same, Bool, true, false, not, ◌&&◌, Option, none, some, List, [], ◌∷◌, if◌then◌else◌,
}
use toh.Base.Dict.{lookup}
use toh.Base.Strings.{split, trim_space}
use toh.Api.{BytesUsage}
use toh.Acl.State.{
  Acl, Key, AclError, invalid_key, in_data_limited, out_data_limited, service_access_denied,
}
use toh.Acl.Quota.{in_bytes_limited, out_bytes_limited}

unfoldable pub admin_enabled : Acl → Bool
admin_enabled a = not (same a.admin_key [])

unfoldable pub is_admin_access : Acl → Text → Bool
unfolding admin_enabled
is_admin_access a key = admin_enabled a && same a.admin_key key

-- The answer for a key that is in the map.
unfoldable pub check_usage : Key → BytesUsage → Option AclError
check_usage k u =
    if in_bytes_limited k u
    then some in_data_limited
    else if out_bytes_limited k u
    then some out_data_limited
    else none

-- `none` is the nil error.
unfoldable pub check_key : Acl → Text → Option AclError
check_key a key = if is_admin_access a key then none else elim (lookup key a.keys) [
  | some k ↦ check_usage k (a.cells k.bytes_usage)
  | none ↦ some invalid_key
]

-- The two tests on the pieces of one entry of a list.
unfoldable pub to_match : Text → Text → List Text → Bool
to_match network addr (h ∷ []) = same h addr
to_match network addr (h ∷ n ∷ []) = same h addr && same n network
to_match network addr _ = false

unfoldable pub entry_matches : Text → Text → Text → Bool
unfolding to_match
entry_matches network addr entry = to_match network addr (split b'/' (trim_space entry))

-- The loop over a list: whether it returns early.
unfoldable pub any_matches : Text → Text → List Text → Bool
any_matches network addr [] = false
any_matches network addr (e ∷ es) =
    if entry_matches network addr e then true else any_matches network addr es

-- The part of `Check` behind `CheckKey`, on the two lists of the key.
unfoldable pub check_lists : Option (List Text) → Option (List Text) → Text → Text → Option AclError
check_lists (some white) black network addr =
    if any_matches network addr white then none else some service_access_denied
check_lists none (some black) network addr =
    if any_matches network addr black then some service_access_denied else none
check_lists none none network addr = none

-- `a.keys[key]` is there after `CheckKey` has passed.
unfoldable pub check : Acl → Text → Text → Text → Option AclError
check a key network addr = if is_admin_access a key then none else elim (check_key a key) [
  | some e ↦ some e
  | none ↦ elim (lookup key a.keys) [
    | some k ↦ check_lists k.whitelist k.blacklist network addr
    | none ↦ none
  ]
]
