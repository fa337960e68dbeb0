-- ===== src/Admin/Effects.antt =====
-- Who changes what through the admin API of server/admin/admin.go, and what its client in
-- server/api/admin.go gets to see.
use toh.Base.{
  Text, text, same, Text-discrete, ◌≡◌, refl, sym, ap, ◌∙◌, ◌≢◌, Bool, true, false, ◌&&◌, ◌||◌,
  Option, none, some, List, [], ◌∷◌, Any, if◌then◌else◌, Result, ok, err, arith,
}
use toh.Base.Dict.{lookup}
use toh.Api.{get, patch, Request, Response, Json, Limit, tidy, tidy_list}
use toh.Api.Client.{acl_patch_limit, acl_get_limit}
use toh.Acl.State.{Acl, Key, StoKey, External}
use toh.Acl.Access.{is_admin_access, admin_enabled}
use toh.Acl.Change.{apply_acl_key_limit, set_key_limit, set_limit, get_limit}
use toh.Acl.Change.Duplicates.{Matches}
use toh.Admin.{reply, handle_key, handle_limit, handle_usage, handle_show_acl, patch_limit, serve}

-- The paths that have a handler.
abbrev pub is_route : Text → Bool
is_route path =
    same path (text "/admin/acl/key")
    || (same path (text "/admin/acl/limit")
        || (same path (text "/admin/acl/usage") || same path (text "/admin/acl")))

module _ (x : External) (json : Json) (buf : Text) (r : Request) (a : Acl) where
  -- A request without the admin key changes nothing: it is answered 401 on the four paths of the API
  -- where that is enabled, and 404 elsewhere.
  pub serve_unauthorized :
      is_admin_access a r.handshake_key ≡ false
      → serve x json buf r a ≡ (
        (if admin_enabled a && is_route r.path
            then reply 401 []
            else reply 404 (text "404 page not found\n")),
        a,
      )
  unfolding serve
  serve_unauthorized other = ground arith

  -- A GET request changes nothing, whoever sends it.
  serve_get : r.method ≡ get → (serve x json buf r a).1 ≡ a
  unfolding serve handle_key handle_limit handle_usage handle_show_acl
  serve_get read = ground arith

-- The server at the other end of the client's connection: a panic closes it.
abbrev pub answered : Option Response × Acl → Result Text Response × Acl
answered (some resp, a) = (ok resp, a)
answered (none, a) = (err (text "EOF"), a)

abbrev pub server : External → Json → Text → Request → Acl → Result Text Response × Acl
server x json buf r a = answered (serve x json buf r a)

get_limit-set_limit :
    (key : Text) (l : Limit) (ks : List StoKey)
    → Any (Matches key) ks
    → get_limit key (set_limit key (some l) ks) ≡ l
unfolding get_limit set_limit
get_limit-set_limit key l [] h = absurd h
get_limit-set_limit key l (k ∷ ks) h = ground (arith, get_limit-set_limit key l ks)

tidy_list_idem : (l : Option (List Text)) → tidy_list (tidy_list l) ≡ tidy_list l
tidy_list_idem none = refl
tidy_list_idem (some []) = refl
tidy_list_idem (some (e ∷ es)) = refl

tidy_idem : (l : Limit) → tidy (tidy l) ≡ tidy l
tidy_idem l = cc (tidy_list_idem l.whitelist, tidy_list_idem l.blacklist)

-- The path of the limits is none of the others.
limit_path :
    (same (text "/admin/acl/limit") (text "/admin/acl/key") ≡ false)
    × (same (text "/admin/acl/limit") (text "/admin/acl/limit") ≡ true)
unfolding Text-discrete
limit_path = (refl, refl)

module _ (x : External) (json : Json) (buf : Text) where
  serve_limit :
      (r : Request) (b : Acl)
      → admin_enabled b ≡ true
      → is_admin_access b r.handshake_key ≡ true
      → r.path ≡ text "/admin/acl/limit"
      → serve x json buf r b ≡ handle_limit x json r b
  unfolding serve
  serve_limit r b enabled access at_limit =
      let (not_key, is_limit) = limit_path in rw at_limit (ground (arith, not_key, is_limit))

  module _ (key : Text) (named : key ≢ []) where
    handle_patch :
        (r : Request) (b : Acl) (body : Text)
        → r.key ≡ key
        → r.method ≡ patch
        → r.body ≡ some body
        → handle_limit x json r b ≡ patch_limit x json key body b
    unfolding handle_limit
    handle_patch r b body is_key is_patch has_body = ground arith

    handle_get :
        (r : Request) (b : Acl)
        → r.key ≡ key
        → r.method ≡ get
        → handle_limit x json r b
          ≡ (reply 200 (json.encode_limit (some (get_limit key b.sto_keys))), b)
    unfolding handle_limit
    handle_get r b is_key is_get = ground arith

-- Access depends on nothing but the admin key.
same_access :
    (a b : Acl) (admin : Text)
    → b.admin_key ≡ a.admin_key
    → (admin_enabled b ≡ admin_enabled a) × (is_admin_access b admin ≡ is_admin_access a admin)
unfolding is_admin_access
same_access a b admin e = (rw e, rw e)

-- What a call of the client does, with the admin's key, at a server where the API is enabled.
module _ (x : External) (json : Json) (buf : Text) (a : Acl) (enabled : admin_enabled a ≡ true)
    (admin : Text) (access : is_admin_access a admin ≡ true) (key : Text) (named : key ≢ []) where
  pub client_patch :
      (l : Limit)
      → json.decode_limit (json.encode_limit (some l)) ≡ ok (tidy l)
      → acl_patch_limit json admin (server x json buf) key (some l) a
        ≡ (ok tt, (set_key_limit x key (some (tidy l)) a).1)
  unfolding acl_patch_limit patch_limit
  client_patch l decodes =
      let body = json.encode_limit (some l) in
      let r : Request = record {
        method = patch;
        path = text "/admin/acl/limit";
        handshake_key = admin;
        name = [];
        key = key;
        body = some body;
      } in
      let served =
        serve_limit x json buf r a enabled access refl
        ∙ handle_patch x json buf key named r a body refl refl refl in
      ground (arith, served, decodes)

  pub client_get :
      json.decode_limit (json.encode_limit (some (get_limit key a.sto_keys)))
        ≡ ok (tidy (get_limit key a.sto_keys))
      → acl_get_limit json admin (server x json buf) key a
        ≡ (ok (tidy (get_limit key a.sto_keys)), a)
  unfolding acl_get_limit
  client_get decodes =
      let r : Request = record {
        method = get;
        path = text "/admin/acl/limit";
        handshake_key = admin;
        name = [];
        key = key;
        body = none;
      } in
      let served =
        serve_limit x json buf r a enabled access refl
        ∙ handle_get x json buf key named r a refl refl in
      ground (arith, served, decodes)

module _ (x : External) (json : Json) (buf : Text) (a : Acl) (admin : Text)
    (access : is_admin_access a admin ≡ true) (key : Text) (named : key ≢ []) (k : Key)
    (found : lookup key a.keys ≡ some k) (l : Limit)
    (decodes : json.decode_limit (json.encode_limit (some l)) ≡ ok (tidy l)) where
  limit_set :
      (k' : Key)
      → apply_acl_key_limit x k (some (tidy l)) ≡ ok k'
      → let a' = (set_key_limit x key (some (tidy l)) a).1 in
        (a'.admin_key ≡ a.admin_key) × (a'.sto_keys ≡ set_limit key (some (tidy l)) a.sto_keys)
  unfolding set_key_limit
  limit_set k' applied = ground arith

  enabled_of_access : admin_enabled a ≡ true
  unfolding is_admin_access
  enabled_of_access = ground arith

  -- Through the client with the admin key, where JSON brings a limit over up to empty lists, once and
  -- a second time: if a key is live and stored, and the limit can be applied to it, then patching the
  -- limit succeeds, and reading it afterwards gives the limit, up to empty lists.
  pub patch_then_get :
      (k' : Key)
      → json.decode_limit (json.encode_limit (some (tidy l))) ≡ ok (tidy l)
      → apply_acl_key_limit x k (some (tidy l)) ≡ ok k'
      → Any (Matches key) a.sto_keys
      → let (patched, a') = acl_patch_limit json admin (server x json buf) key (some l) a in
        let (got, _) = acl_get_limit json admin (server x json buf) key a' in
        (patched ≡ ok tt) × (got ≡ ok (tidy l))
  patch_then_get k' again applied stored =
      let a' = (set_key_limit x key (some (tidy l)) a).1 in
      let (same_admin, same_stored) = limit_set k' applied in
      let (still_enabled, still_access) = same_access a a' admin same_admin in
      let there : get_limit key a'.sto_keys ≡ tidy l =
        ap (get_limit key) same_stored ∙ get_limit-set_limit key (tidy l) a.sto_keys stored in
      let law : json.decode_limit (json.encode_limit (some (get_limit key a'.sto_keys)))
          ≡ ok (tidy (get_limit key a'.sto_keys)) =
        rw there (again ∙ ap ok (sym (tidy_idem l))) in
      let reading =
        client_get x json buf a' (still_enabled ∙ enabled_of_access) admin (still_access ∙ access)
          key named law in
      rw (client_patch x json buf a enabled_of_access admin access key named l decodes)
        (refl, ap (λ p. p.0) reading ∙ ap ok (ap tidy there ∙ tidy_idem l))

  -- Through the client with the admin key, where JSON brings a limit over up to empty lists: if a key
  -- is live and one of the sizes of the limit does not parse, then the stored limits stay as they are,
  -- and yet the client reports success.
  pub patch_failure_unseen :
      (e : Text) (k' : Key)
      → apply_acl_key_limit x k (some (tidy l)) ≡ err (e, k')
      → let (patched, a') = acl_patch_limit json admin (server x json buf) key (some l) a in
        (patched ≡ ok tt) × (a'.sto_keys ≡ a.sto_keys)
  patch_failure_unseen e k' failed =
      rw (client_patch x json buf a enabled_of_access admin access key named l decodes)
        (refl, unfold set_key_limit in ground arith)
