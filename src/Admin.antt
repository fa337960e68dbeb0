-- ===== src/Admin.antt =====
-- The HTTP handlers of the admin API (server/admin/admin.go).
pub mod Effects
use toh.Base.{ℕ, Text, text, same, Option, none, some, [], List, if◌then◌else◌, Result, ok, err}
use toh.Api.{Method, get, post, patch, delete, other, Request, Response, Json, Limit}
use toh.Acl.State.{Acl, External}
use toh.Acl.Access.{is_admin_access, admin_enabled}
use toh.Acl.Change.{new_key, del_key, set_key_limit, get_limit, get_usage, del_usage}
use toh.Acl.Storage.{storage}

abbrev pub reply : ℕ → Text → Option Response
reply status body = some (record { status = status; body = body })

abbrev pub missing_key : Option Response
missing_key = reply 400 (text "required key parameter not found in url")

-- A handler; `none` is a panic, after which the server drops the connection.
module _ (x : External) (json : Json) where
  -- `buf` is what the random source gives for a new key.
  unfoldable pub handle_key : Text → Request → Acl → Option Response × Acl
  handle_key buf r a = elim r.method [
    | post ↦ let (key, a') = new_key x buf r.name a in (reply 200 key, a')
    | delete ↦
        if same r.key []
        then (missing_key, a)
        else (let (panicked, a') = del_key r.key a in (if panicked then none else reply 200 [], a'))
    | _ ↦ (reply 405 [], a)
  ]

  -- The answer to a limit that has been decoded.
  abbrev pub limit_reply : Option Text → Option Response
  limit_reply none = reply 200 []
  limit_reply (some e) = reply 400 e

  -- `PATCH` with a body.
  unfoldable pub patch_limit : Text → Text → Acl → Option Response × Acl
  patch_limit key body a = elim (json.decode_limit body) [
    | err e ↦ (reply 500 e, a)
    | ok l ↦ let (e, a') = set_key_limit x key (some l) a in (limit_reply e, a')
  ]

  unfoldable pub handle_limit : Request → Acl → Option Response × Acl
  unfolding patch_limit
  handle_limit r a = if same r.key [] then (missing_key, a) else (elim r.method [
    | patch ↦ elim r.body [
      | none ↦ (reply 400 (text "missing body"), a)
      | some body ↦ patch_limit r.key body a
    ]
    | get ↦ (reply 200 (json.encode_limit (some (get_limit r.key a.sto_keys))), a)
    | _ ↦ (reply 405 [], a)
  ])

  unfoldable pub handle_usage : Request → Acl → Option Response × Acl
  handle_usage r a = if same r.key [] then (missing_key, a) else (elim r.method [
    | get ↦ (reply 200 (json.encode_usage (get_usage r.key a)), a)
    | delete ↦ (reply 200 [], del_usage r.key a)
    | _ ↦ (reply 405 [], a)
  ])

  unfoldable pub handle_show_acl : Request → Acl → Option Response × Acl
  handle_show_acl r a = elim r.method [
    | get ↦ (reply 200 (json.encode_keys (storage a.cells a.sto_keys)), a)
    | _ ↦ (reply 405 [], a)
  ]

  unfoldable pub with_auth :
      (Request → Acl → Option Response × Acl) → Request → Acl → Option Response × Acl
  with_auth handle r a = if is_admin_access a r.handshake_key then handle r a else (reply 401 [], a)

  -- The routes that `Register` adds, and the default handler's answer to other paths; the path is
  -- clean, without empty or dotted parts.
  unfoldable pub serve : Text → Request → Acl → Option Response × Acl
  unfolding with_auth
  serve buf r a =
      if admin_enabled a
      then (if same r.path (text "/admin/acl/key")
          then with_auth (handle_key buf) r a
          else if same r.path (text "/admin/acl/limit")
          then with_auth handle_limit r a
          else if same r.path (text "/admin/acl/usage")
          then with_auth handle_usage r a
          else if same r.path (text "/admin/acl")
          then with_auth handle_show_acl r a
          else (reply 404 (text "404 page not found\n"), a))
      else (reply 404 (text "404 page not found\n"), a)
