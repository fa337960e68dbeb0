-- ===== src/Examples/Keys.antt =====
-- The theorems on server/acl/acl.go at lists with two users.
use toh.Base.{
  ◌≡◌, ◌↔◌, refl, Text, Text-discrete, text, true, false, ◌⊎◌, none, some, [], ◌∷◌, Holds, inl,
  arith,
}
use toh.Base.Dict.{lookup, erase}
use toh.Api.{ApiKey, BytesUsage}
use toh.Acl.State.{
  Acl, Key, count_update, invalid_key, service_access_denied, in_data_limited, out_data_limited,
}
use toh.Acl.Quota.{in_bytes_limited, out_bytes_limited}
use toh.Acl.Quota.Bounds.{limits_exact, share_above_total_unlimited, MayReceive, MaySend}
use toh.Base.Strings.{split, trim_space}
use toh.Acl.Access.{
  check_usage, check_lists, any_matches, entry_matches, check_key, check, is_admin_access,
}
use toh.Acl.Access.Policy.{check_iff, check_errors, IsPermitted, IsForbidden}
use toh.Acl.Change.{del_key}
use toh.Acl.Change.Deletion.{del_key_distinct, without}
use toh.Acl.Change.Duplicates.{del_key_duplicate}
use toh.Acl.Isolation.{IsSound}
use toh.Acl.Storage.{load}
use toh.Acl.Storage.Loading.{load-IsSound}
use toh.Examples.Data.{external, alice_key, stored, two_users}

abbrev usage : BytesUsage
usage = record { in_bytes = 200; out_bytes = 100 }

abbrev file_key : Text → ApiKey
file_key key = record { name = text "user"; key = key; limit = none; bytes_usage = some usage }

limits_exact_example :
    ((in_bytes_limited alice_key usage ≡ false) ↔ MayReceive alice_key usage)
    × ((out_bytes_limited alice_key usage ≡ false) ↔ MaySend alice_key usage)
limits_exact_example =
    limits_exact alice_key usage
      (record {
        bytes = omega arith;
        in_bytes = omega arith;
        out_bytes = omega arith;
        received = omega arith;
        sent = omega arith;
      })
      (record { in_share = λ h. omega arith; out_share = λ h. omega arith }) (omega arith)

abbrev greedy_key : Key
greedy_key = record alice_key { out_bytes_limit = 2000 }

abbrev heavy_usage : BytesUsage
heavy_usage = record { in_bytes = 1000000; out_bytes = 0 }

share_above_total_unlimited_example : in_bytes_limited greedy_key heavy_usage ≡ false
share_above_total_unlimited_example =
    share_above_total_unlimited greedy_key heavy_usage
      (record {
        bytes = omega arith;
        in_bytes = omega arith;
        out_bytes = omega arith;
        received = omega arith;
        sent = omega arith;
      })
      refl (omega arith) (omega arith) (omega arith)

alice_no_admin : is_admin_access two_users (text "alice") ≡ false
unfolding is_admin_access Text-discrete
alice_no_admin = refl

-- The users have counters of their own.
pub two_users-IsSound : IsSound two_users
unfolding lookup
two_users-IsSound = record { in_range = λ j k. ground arith; apart = λ i j k m. ground arith }

check_iff_example : (check two_users (text "alice") (text "tcp") (text "a.org") ≡ none) ↔ (
    (is_admin_access two_users (text "alice") ≡ true)
    ⊎ Holds
        (IsPermitted two_users (text "tcp") (text "a.org"))
        (lookup (text "alice") two_users.keys))
check_iff_example = check_iff two_users (text "alice") (text "tcp") (text "a.org")

check_errors_example :
    ((check two_users (text "alice") (text "udp") (text "a.org") ≡ some invalid_key)
      ↔ (lookup (text "alice") two_users.keys ≡ none))
    × ((check two_users (text "alice") (text "udp") (text "a.org") ≡ some service_access_denied)
        ↔ Holds
            (IsForbidden two_users (text "udp") (text "a.org"))
            (lookup (text "alice") two_users.keys))
    × ((check two_users (text "alice") (text "udp") (text "a.org") ≡ some in_data_limited)
        ↔ (check_key two_users (text "alice") ≡ some in_data_limited))
    × ((check two_users (text "alice") (text "udp") (text "a.org") ≡ some out_data_limited)
        ↔ (check_key two_users (text "alice") ≡ some out_data_limited))
check_errors_example =
    check_errors two_users (text "alice") (text "udp") (text "a.org") alice_no_admin

-- Over UDP the whitelist of the first user lists nothing.
check_over_udp :
    check two_users (text "alice") (text "udp") (text "a.org") ≡ some service_access_denied
unfolding check check_key check_usage check_lists any_matches entry_matches split trim_space
    Text-discrete is_admin_access lookup in_bytes_limited out_bytes_limited
check_over_udp = refl

check_over_tcp : check two_users (text "alice") (text "tcp") (text "a.org") ≡ none
unfolding check check_key check_usage check_lists any_matches entry_matches split trim_space
    Text-discrete is_admin_access lookup in_bytes_limited out_bytes_limited
check_over_tcp = refl

del_key_distinct_example : del_key (text "alice") two_users ≡ (
  false,
  count_update (record two_users {
    keys = erase (text "alice") two_users.keys;
    sto_keys = without (text "alice") two_users.sto_keys;
  }),
)
del_key_distinct_example =
    del_key_distinct (text "alice") two_users (((λ e. ground arith), tt), (tt, tt))

abbrev twice : Acl
twice = record two_users { sto_keys = stored (text "bob") ∷ stored (text "bob") ∷ [] }

del_key_duplicate_example : (del_key (text "bob") twice).0 ≡ true
del_key_duplicate_example =
    del_key_duplicate (text "bob") twice (stored (text "bob") ∷ []) (stored (text "bob")) refl refl
      (inl refl)

-- A list that has been loaded from a file with two keys, each with a usage.
abbrev loaded : Acl
loaded = load external (text "root") (file_key (text "alice") ∷ file_key (text "bob") ∷ [])

load-IsSound_example : IsSound loaded
load-IsSound_example =
    load-IsSound external (text "root") (file_key (text "alice") ∷ file_key (text "bob") ∷ [])
