-- ===== src/Cmd/Acl/InForce.antt =====
-- What the commands of cmd/acl/access.go do to the access of a key, at a server with the handlers of
-- server/admin/admin.go.
use toh.Base.{Text, ◌≡◌, refl, ap, ◌∙◌, ◌≢◌, true, Option, none, some, List, [], All, ok, arith}
use toh.Base.Dict.{lookup, lookup-insert}
use toh.Api.{Json, Limit, tidy, tidy_list}
use toh.Acl.State.{Acl, Key, External}
use toh.Acl.Access.{is_admin_access, admin_enabled, check_key, check_lists, check}
use toh.Acl.Change.{apply_acl_key_limit, set_key_limit, get_limit}
use toh.Admin.Effects.{server, client_get, client_patch}
use toh.Cmd.Acl.{elements, update_whitelist, del_items, del_whitelist}
use toh.Cmd.Acl.Lists.{Contains, del_items_lem}

module _ (x : External) (key : Text) (k k' : Key) (l : Limit)
    (applied : apply_acl_key_limit x k (some l) ≡ ok k') where
  -- A limit that can be applied brings its lists into force.
  apply-lists : (k'.whitelist ≡ l.whitelist) × (k'.blacklist ≡ l.blacklist)
  unfolding apply_acl_key_limit
  apply-lists = ground arith

  set-lookup :
      (a : Acl)
      → lookup key a.keys ≡ some k
      → lookup key (set_key_limit x key (some l) a).1.keys ≡ some k'
  unfolding set_key_limit
  set-lookup a found = ground (arith, lookup-insert key key k' a.keys)

admin_is_enabled :
    (a : Acl) (admin : Text) → is_admin_access a admin ≡ true → admin_enabled a ≡ true
unfolding is_admin_access
admin_is_enabled a admin access = ground arith

-- The limit that the command sends: the one that it has got, with another whitelist.
abbrev pub sent : (Option (List Text) → Option (List Text)) → Text → Acl → Limit
sent update key a =
    let l = tidy (get_limit key a.sto_keys) in record l { whitelist = update l.whitelist }

module _ (x : External) (json : Json) (buf : Text) (a : Acl) (admin : Text)
    (access : is_admin_access a admin ≡ true) (key : Text) (named : key ≢ [])
    (update : Option (List Text) → Option (List Text))
    (reads : json.decode_limit (json.encode_limit (some (get_limit key a.sto_keys)))
      ≡ ok (tidy (get_limit key a.sto_keys)))
    (writes : json.decode_limit (json.encode_limit (some (sent update key a)))
      ≡ ok (tidy (sent update key a))) where
  update_whitelist_lem : update_whitelist json admin (server x json buf) update key a ≡ (
    ok (sent update key a).whitelist,
    (set_key_limit x key (some (tidy (sent update key a))) a).1,
  )
  unfolding update_whitelist
  update_whitelist_lem =
      let enabled = admin_is_enabled a admin access in
      rw (client_get x json buf a enabled admin access key named reads) (
        rw (client_patch x json buf a enabled admin access key named (sent update key a) writes)
          refl)

  -- Through the client with the admin key, where JSON brings the limits over up to empty lists: if a
  -- key is live and the limit can be applied to it, then the command succeeds, and the whitelist that
  -- is in force for the key is then the updated one, an empty one being none at all.
  pub update_whitelist_in_force :
      (k k' : Key)
      → lookup key a.keys ≡ some k
      → apply_acl_key_limit x k (some (tidy (sent update key a))) ≡ ok k'
      → let (printed, a') = update_whitelist json admin (server x json buf) update key a in
        (printed ≡ ok (sent update key a).whitelist)
        × (lookup key a'.keys ≡ some k')
        × (k'.whitelist ≡ tidy_list (sent update key a).whitelist)
  update_whitelist_in_force k k' found applied = rw update_whitelist_lem (
    refl,
    set-lookup x key k k' (tidy (sent update key a)) applied a found,
    (apply-lists x key k k' (tidy (sent update key a)) applied).0,
  )

no_lists_permit :
    (b : Acl) (key network addr : Text) (k : Key)
    → lookup key b.keys ≡ some k
    → k.whitelist ≡ none
    → k.blacklist ≡ none
    → check b key network addr ≡ check_key b key
unfolding check check_key check_lists
no_lists_permit b key network addr k found no_white no_black = ground arith

-- Through the client with the admin key, where JSON brings the limits over up to empty lists: if a
-- live key has no blacklist, the limit can be applied to it, and every entry of its whitelist is
-- deleted, then from there on `Check` lets it through for every network and address for which
-- `CheckKey` does.
pub del_whitelist_opens :
    (x : External) (json : Json) (buf : Text) (a : Acl) (admin : Text)
    (access : is_admin_access a admin ≡ true) (key : Text) (named : key ≢ []) (args : List Text)
    (reads : json.decode_limit (json.encode_limit (some (get_limit key a.sto_keys)))
      ≡ ok (tidy (get_limit key a.sto_keys)))
    (writes : json.decode_limit
        (json.encode_limit (some (sent (λ old. del_items args (elements old) none) key a)))
      ≡ ok (tidy (sent (λ old. del_items args (elements old) none) key a)))
    (k k' : Key)
    → lookup key a.keys ≡ some k
    → apply_acl_key_limit x k (some (tidy (sent (λ old. del_items args (elements old) none) key a)))
      ≡ ok k'
    → All (Contains args) (elements (tidy_list (get_limit key a.sto_keys).whitelist))
    → tidy_list (get_limit key a.sto_keys).blacklist ≡ none
    → (network addr : Text)
    → let (_, a') = del_whitelist json admin (server x json buf) args key a in
      check a' key network addr ≡ check_key a' key
unfolding del_whitelist
del_whitelist_opens x json buf a admin access key named args reads writes k k' found applied
      all_listed no_black network addr =
    let update : Option (List Text) → Option (List Text) =
      λ old. del_items args (elements old) none in
    let (printed, live_key, white) =
      update_whitelist_in_force x json buf a admin access key named update reads writes k k' found
        applied in
    let gone : del_items args (elements (tidy_list (get_limit key a.sto_keys).whitelist)) none
        ≡ none =
      (del_items_lem args (elements (tidy_list (get_limit key a.sto_keys).whitelist))).1.1
        all_listed in
    let black = (apply-lists x key k k' (tidy (sent update key a)) applied).1 in
    no_lists_permit (update_whitelist json admin (server x json buf) update key a).1 key network
      addr k' live_key (white ∙ ap tidy_list gone) (black ∙ (ap tidy_list no_black))
