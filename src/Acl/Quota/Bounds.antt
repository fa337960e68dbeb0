-- ===== src/Acl/Quota/Bounds.antt =====
-- The limits of a key as arithmetic, for server/acl/acl.go.
use toh.Base.{◌+◌, ◌-◌, ◌≤◌, ◌<◌, ◌≡◌, ◌⊎◌, ◌↔◌, false, arith}
use toh.Base.Words.{modulus64}
use toh.Api.{BytesUsage}
use toh.Acl.State.{Key}
use toh.Acl.Quota.{in_bytes_limited, out_bytes_limited}

-- What a decoded limit and a counter are: 64-bit numbers.
pub record IsWord64 (k : Key) (u : BytesUsage) : Type 0 where
  pub bytes : k.bytes_limit < modulus64
  pub in_bytes : k.in_bytes_limit < modulus64
  pub out_bytes : k.out_bytes_limit < modulus64
  pub received : u.in_bytes < modulus64
  pub sent : u.out_bytes < modulus64

-- The limits agree: each direction's share, where it has one, fits in the total, where there is one.
pub record Agrees (k : Key) : Type 0 where
  pub in_share : 0 < k.bytes_limit → k.in_bytes_limit ≤ k.bytes_limit
  pub out_share : 0 < k.bytes_limit → k.out_bytes_limit ≤ k.bytes_limit

-- A key passes the incoming test exactly when it keeps its own share, or what the other
-- direction's share leaves of the total, or the sum of both directions stays below the total.
abbrev pub MayReceive : Key → BytesUsage → Type 0
MayReceive k u =
    ((0 < k.in_bytes_limit) × (u.in_bytes < k.in_bytes_limit))
    ⊎ ((k.in_bytes_limit ≡ 0) × (k.bytes_limit ≡ 0))
    ⊎ ((k.in_bytes_limit ≡ 0)
        × (0 < k.out_bytes_limit)
        × (u.in_bytes + k.out_bytes_limit < k.bytes_limit))
    ⊎ ((k.in_bytes_limit ≡ 0)
        × (k.out_bytes_limit ≡ 0)
        × (u.in_bytes + u.out_bytes < k.bytes_limit))

-- The same for the outgoing test.
abbrev pub MaySend : Key → BytesUsage → Type 0
MaySend k u =
    ((0 < k.out_bytes_limit) × (u.out_bytes < k.out_bytes_limit))
    ⊎ ((k.out_bytes_limit ≡ 0) × (k.bytes_limit ≡ 0))
    ⊎ ((k.out_bytes_limit ≡ 0)
        × (0 < k.in_bytes_limit)
        × (u.out_bytes + k.in_bytes_limit < k.bytes_limit))
    ⊎ ((k.out_bytes_limit ≡ 0)
        × (k.in_bytes_limit ≡ 0)
        × (u.in_bytes + u.out_bytes < k.bytes_limit))

module _ (k : Key) (u : BytesUsage) (words : IsWord64 k u) where
  -- For 64-bit limits and counters whose sum does not overflow, and limits of which neither share
  -- exceeds the total: the two tests pass exactly when the key may receive, and may send.
  pub limits_exact :
      Agrees k
      → u.in_bytes + u.out_bytes < modulus64
      → ((in_bytes_limited k u ≡ false) ↔ MayReceive k u)
        × ((out_bytes_limited k u ≡ false) ↔ MaySend k u)
  unfolding in_bytes_limited out_bytes_limited
  limits_exact agrees small = (ground arith, ground arith)

  -- For 64-bit limits and counters whose sum does not overflow, if the two shares together fit in
  -- a total that is set: a key that passes both tests has moved less than the total.
  passed_within_total :
      u.in_bytes + u.out_bytes < modulus64
      → 0 < k.bytes_limit
      → k.in_bytes_limit + k.out_bytes_limit ≤ k.bytes_limit
      → in_bytes_limited k u ≡ false
      → out_bytes_limited k u ≡ false
      → u.in_bytes + u.out_bytes < k.bytes_limit
  unfolding in_bytes_limited out_bytes_limited
  passed_within_total small total fits passed_in passed_out = ground arith

  -- For 64-bit limits and counters: if a total is set, the incoming share is not, and the outgoing
  -- share exceeds the total, then the incoming test lets everything pass that is below the total
  -- plus the distance of the outgoing share from 2 ^ 64, although nothing of the total is left.
  pub share_above_total_unlimited :
      k.in_bytes_limit ≡ 0
      → 0 < k.bytes_limit
      → k.bytes_limit < k.out_bytes_limit
      → u.in_bytes < k.bytes_limit + (modulus64 - k.out_bytes_limit)
      → in_bytes_limited k u ≡ false
  unfolding in_bytes_limited
  share_above_total_unlimited no_share total above below = ground arith
