-- ===== src/Acl/State.antt =====
-- The state behind `*ACL` (server/acl/acl.go). The live keys and the keys to store hold pointers
-- to the same usage counters, so these lie in a heap of cells; nothing else is shared.
use toh.Base.{ℕ, Text, Option, List, Result, ◌==◌, if◌then◌else◌}
use toh.Base.Dict.{Dict}
use toh.Base.Words.{add64}
use toh.Api.{BytesUsage, Limit}

-- `key`; `bytes_usage` is the address of a cell.
pub record Key : Type 0 where
  pub bytes_limit : ℕ
  pub in_bytes_limit : ℕ
  pub out_bytes_limit : ℕ
  pub bytes_usage : ℕ
  pub whitelist : Option (List Text)
  pub blacklist : Option (List Text)

-- `api.Key` in memory, an element of `ACLStorage.Keys`.
pub record StoKey : Type 0 where
  pub name : Text
  pub key : Text
  pub limit : Option Limit
  pub bytes_usage : Option ℕ

-- `pending` is the bit pattern of `stoUpdatePendingCount`; addresses from `next` on are free.
pub record Acl : Type 0 where
  pub admin_key : Text
  pub keys : Dict Key
  pub sto_keys : List StoKey
  pub cells : ℕ → BytesUsage
  pub next : ℕ
  pub pending : ℕ

-- `*p = v`
abbrev pub write : (ℕ → BytesUsage) → ℕ → BytesUsage → ℕ → BytesUsage
write cells p v q = if p == q then v else cells q

-- `a.stoUpdatePendingCount++`
unfoldable pub count_update : Acl → Acl
unfolding add64
count_update a = record a { pending = add64 a.pending 1 }

-- The errors of the package; the text is that of an error from outside.
pub data AclError : Type 0 where
  invalid_key in_data_limited out_data_limited service_access_denied : AclError
  short_admin_key : AclError
  outside : Text → AclError
  acl_file : Text → AclError

-- What the package takes from the libraries that it calls: `humanize.ParseBytes` and
-- `base58.CheckEncode`.
pub record External : Type 0 where
  pub parse_bytes : Text → Result Text ℕ
  pub check_encode : Text → Text → Text
