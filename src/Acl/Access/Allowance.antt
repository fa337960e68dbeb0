-- ===== src/Acl/Access/Allowance.antt =====
-- Whom the limits and the lists of server/acl/acl.go admit, in plain arithmetic.
use toh.Base.{◌+◌, ◌<◌, Text, ◌≡◌, ◌↔◌, false, none, some, arith}
use toh.Base.Dict.{lookup}
use toh.Base.Words.{modulus64}
use toh.Api.{BytesUsage}
use toh.Acl.State.{Acl, Key}
use toh.Acl.Quota.Bounds.{IsWord64, Agrees, MayReceive, MaySend, limits_exact}
use toh.Acl.Access.{is_admin_access, check_usage, check}
use toh.Acl.Access.Policy.{Permits, check_iff}

pub check_usage_iff :
    (k : Key) (u : BytesUsage)
    → IsWord64 k u
    → Agrees k
    → u.in_bytes + u.out_bytes < modulus64
    → (check_usage k u ≡ none) ↔ (MayReceive k u × MaySend k u)
unfolding check_usage
check_usage_iff k u words agrees small = ground (arith, limits_exact k u words agrees small)

pub admitted_iff :
    (b : Acl) (key network addr : Text) (k : Key) (u : BytesUsage)
    → lookup key b.keys ≡ some k
    → b.cells k.bytes_usage ≡ u
    → is_admin_access b key ≡ false
    → (check b key network addr ≡ none)
      ↔ ((check_usage k u ≡ none) × Permits k.whitelist k.blacklist network addr)
admitted_iff b key network addr k u found stood outsider =
    let decided = check_iff b key network addr in
    ground (arith, rw found at decided, stood, outsider)
