-- ===== src/Acl/Lifecycle.antt =====
-- What the operations of server/acl/acl.go do to the key that they are called for.
use toh.Base.{Text, ◌≡◌, false, none, some, [], ◌∷◌, arith, Option-cases, inl, inr}
use toh.Base.Dict.{lookup, lookup-insert, lookup-erase}
use toh.Api.{no_usage, Limit}
use toh.Acl.State.{Acl, Key, External, invalid_key}
use toh.Acl.Quota.{in_bytes_limited, out_bytes_limited}
use toh.Acl.Access.{is_admin_access, check_key, check_usage, check_lists, check}
use toh.Acl.Change.{
  del_key, del_usage, unlimited, apply_acl_key_limit, new_key, set_key_limit, set_limit, get_usage,
}

module _ (x : External) (buf name : Text) (a : Acl) where
  abbrev created : Text
  created = x.check_encode buf (1 ∷ 0 ∷ [])

  -- A key that has just been created passes `Check` for every network and address, and has used
  -- nothing.
  check-new_key :
      (network addr : Text)
      → (check (new_key x buf name a).1 created network addr ≡ none)
        × (get_usage created (new_key x buf name a).1 ≡ no_usage)
  unfolding check check_key check_usage in_bytes_limited out_bytes_limited get_usage new_key
      check_lists
  check-new_key network addr =
      ground (arith, lookup-insert created created (unlimited a.next) a.keys)

module _ (key : Text) (a : Acl) where
  -- A deleted key other than the admin's is invalid, also where the deletion panicked.
  check_key-del_key :
      is_admin_access a key ≡ false → check_key (del_key key a).1 key ≡ some invalid_key
  unfolding check_key del_key is_admin_access
  check_key-del_key other = ground (arith, lookup-erase key key a.keys)

  -- After `DelUsage` a key has used nothing.
  get_usage-del_usage : get_usage key (del_usage key a) ≡ no_usage
  unfolding get_usage del_usage
  get_usage-del_usage = elim (Option-cases (lookup key a.keys)) [
    | inl missing ↦ ground arith
    | inr (k, found) ↦
        ground (arith, lookup-insert key key (record k { bytes_usage = a.next }) a.keys)
  ]

-- For a live key: a limit whose sizes are all empty brings its lists into force and leaves the sizes
-- in force as they were, and yet it is stored as it is, without sizes.
empty_limit_keeps_sizes :
    (x : External) (key : Text) (a : Acl) (k : Key) (l : Limit)
    → lookup key a.keys ≡ some k
    → l.bytes ≡ []
    → l.in_bytes ≡ []
    → l.out_bytes ≡ []
    → let (e, a') = set_key_limit x key (some l) a in
      (e ≡ none)
      × (lookup key a'.keys ≡ some (record k { whitelist = l.whitelist; blacklist = l.blacklist }))
      × (a'.sto_keys ≡ set_limit key (some l) a.sto_keys)
unfolding set_key_limit apply_acl_key_limit
empty_limit_keeps_sizes x key a k l found no_bytes no_in no_out = ground (
  arith,
  lookup-insert key key (record k { whitelist = l.whitelist; blacklist = l.blacklist }) a.keys,
)
