-- ===== src/Acl/Quota.antt =====
-- Whether a key has used up what it may receive or send (server/acl/acl.go).
pub mod Bounds
use toh.Base.{ℕ, Bool, false, ltb, leb, if◌then◌else◌}
use toh.Base.Words.{add64, sub64}
use toh.Api.{BytesUsage}
use toh.Acl.State.{Key}

unfoldable pub in_bytes_limited : Key → BytesUsage → Bool
unfolding add64 sub64
in_bytes_limited k u =
    if ltb 0 k.in_bytes_limit
    then leb k.in_bytes_limit u.in_bytes
    else if leb k.bytes_limit 0
    then false
    else if ltb 0 k.out_bytes_limit
    then leb (sub64 k.bytes_limit k.out_bytes_limit) u.in_bytes
    else leb k.bytes_limit (add64 u.in_bytes u.out_bytes)

unfoldable pub out_bytes_limited : Key → BytesUsage → Bool
unfolding add64 sub64
out_bytes_limited k u =
    if ltb 0 k.out_bytes_limit
    then leb k.out_bytes_limit u.out_bytes
    else if leb k.bytes_limit 0
    then false
    else if ltb 0 k.in_bytes_limit
    then leb (sub64 k.bytes_limit k.in_bytes_limit) u.out_bytes
    else leb k.bytes_limit (add64 u.in_bytes u.out_bytes)
