-- ===== src/Api/Client.antt =====
-- The client of the admin API (server/api/admin.go), over a transport that carries a request to the
-- server. A response whose body cannot be read, or a server address that is no URL, is an error of
-- the transport.
use toh.Base.{Text, text, Option, none, some, List, [], ◌==◌, if◌then◌else◌, Result, ok, err}
use toh.Api.{Method, get, post, patch, delete, Request, Response, Json, Limit, BytesUsage, ApiKey}

-- `spec.ErrAuth`, or an error from outside.
pub data ClientError : Type 0 where
  auth : ClientError
  outside : Text → ClientError

-- `decoded`: the end of the calls that decode the body.
abbrev pub decoded {ℓ} : {A : Type ℓ} → Result Text A → Result ClientError A
decoded (ok a) = ok a
decoded (err e) = err (outside e)

module _ {W : Type 0} (json : Json) (admin_key : Text)
    (transport : Request → W → Result Text Response × W) where
  -- A request with the admin's key, and the tests that every call makes of the answer.
  unfoldable pub call :
      {A : Type 0} → Request → (Response → Result ClientError A) → W → Result ClientError A × W
  call r use_response w =
      let (answer, w') = transport (record r { handshake_key = admin_key }) w in
      (
        elim answer [
          | err e ↦ err (outside e)
          | ok resp ↦ if resp.status == 401 then err auth else use_response resp
        ],
        w',
      )

  abbrev pub request_for : Method → Text → Text → Text → Option Text → Request
  request_for method path name key body = record {
    method = method;
    path = path;
    handshake_key = admin_key;
    name = name;
    key = key;
    body = body;
  }

  unfoldable pub acl_new_key : Text → W → Result ClientError Text × W
  unfolding call
  acl_new_key name =
      call (request_for post (text "/admin/acl/key") name [] none) (λ resp. ok resp.body)

  unfoldable pub acl_del_key : Text → W → Result ClientError (Unit {0}) × W
  unfolding call
  acl_del_key key = call (request_for delete (text "/admin/acl/key") [] key none) (λ _. ok tt)

  -- The status of the answer is compared with 401 only.
  unfoldable pub acl_patch_limit : Text → Option Limit → W → Result ClientError (Unit {0}) × W
  unfolding call
  acl_patch_limit key l =
      call (request_for patch (text "/admin/acl/limit") [] key (some (json.encode_limit l)))
        (λ _. ok tt)

  unfoldable pub acl_get_limit : Text → W → Result ClientError Limit × W
  unfolding call
  acl_get_limit key =
      call (request_for get (text "/admin/acl/limit") [] key none)
        (λ resp. decoded (json.decode_limit resp.body))

  unfoldable pub acl_get_usage : Text → W → Result ClientError BytesUsage × W
  unfolding call
  acl_get_usage key =
      call (request_for get (text "/admin/acl/usage") [] key none)
        (λ resp. decoded (json.decode_usage resp.body))

  unfoldable pub acl_del_usage : Text → W → Result ClientError (Unit {0}) × W
  unfolding call
  acl_del_usage key = call (request_for delete (text "/admin/acl/usage") [] key none) (λ _. ok tt)

  unfoldable pub acl_show : W → Result ClientError (List ApiKey) × W
  unfolding call
  acl_show =
      call (request_for get (text "/admin/acl") [] [] none)
        (λ resp. decoded (json.decode_keys resp.body))
