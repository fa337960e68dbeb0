-- ===== src/Examples/Requests.antt =====
-- The theorems on server/admin/admin.go and server/api/admin.go at a server with two users.
use toh.Base.{
  ◌≡◌, ◌≢◌, refl, Text, Text-discrete, text, true, false, ◌&&◌, none, some, [], inl, if◌then◌else◌,
  ok,
}
use toh.Base.Dict.{lookup}
use toh.Api.{Method, delete, Request, Limit}
use toh.Api.Client.{acl_patch_limit, acl_get_limit}
use toh.Acl.Access.{is_admin_access, admin_enabled}
use toh.Acl.Change.{apply_bytes, apply_acl_key_limit}
use toh.Admin.{reply, serve}
use toh.Admin.Effects.{server, is_route, serve_unauthorized, patch_then_get, patch_failure_unseen}
use toh.Examples.Data.{external, alice_key, two_users, size_limit, one_limit_json}

-- The text does not name the admin.
stranger : is_admin_access two_users (text "alice") ≡ false
unfolding is_admin_access Text-discrete
stranger = refl

root_access : is_admin_access two_users (text "root") ≡ true
unfolding is_admin_access admin_enabled Text-discrete
root_access = refl

alice_live : lookup (text "alice") two_users.keys ≡ some alice_key
unfolding lookup Text-discrete
alice_live = refl

alice_named : text "alice" ≢ []
alice_named e = cc

abbrev request : Method → Text → Request
request m handshake_key = record {
  method = m;
  path = text "/admin/acl/key";
  handshake_key = handshake_key;
  name = [];
  key = text "bob";
  body = none;
}

abbrev one_kilobyte : Limit
one_kilobyte = size_limit (text "1kB")

serve_unauthorized_example :
    serve external (one_limit_json one_kilobyte) [] (request delete (text "alice")) two_users ≡ (
      (if admin_enabled two_users && is_route (text "/admin/acl/key")
          then reply 401 []
          else reply 404 (text "404 page not found\n")),
      two_users,
    )
serve_unauthorized_example =
    serve_unauthorized external (one_limit_json one_kilobyte) [] (request delete (text "alice"))
      two_users stranger

patch_then_get_example :
    let s = server external (one_limit_json one_kilobyte) [] in
    let (patched, a) =
      acl_patch_limit
        (one_limit_json one_kilobyte)
        (text "root")
        s
        (text "alice")
        (some one_kilobyte)
        two_users in
    let (got, _) = acl_get_limit (one_limit_json one_kilobyte) (text "root") s (text "alice") a in
    (patched ≡ ok tt) × (got ≡ ok one_kilobyte)
unfolding Text-discrete apply_acl_key_limit apply_bytes
patch_then_get_example =
    patch_then_get external (one_limit_json one_kilobyte) [] two_users (text "root") root_access
      (text "alice") alice_named alice_key alice_live one_kilobyte refl
      (record alice_key { whitelist = none }) refl refl (inl refl)

abbrev one_megabyte : Limit
one_megabyte = size_limit (text "1MB")

patch_failure_unseen_example :
    let (patched, a) =
      acl_patch_limit
        (one_limit_json one_megabyte)
        (text "root")
        (server external (one_limit_json one_megabyte) [])
        (text "alice")
        (some one_megabyte)
        two_users in
    (patched ≡ ok tt) × (a.sto_keys ≡ two_users.sto_keys)
unfolding Text-discrete apply_acl_key_limit apply_bytes
patch_failure_unseen_example =
    patch_failure_unseen external (one_limit_json one_megabyte) [] two_users (text "root")
      root_access (text "alice") alice_named alice_key alice_live one_megabyte refl
      (text "unknown size") alice_key refl
