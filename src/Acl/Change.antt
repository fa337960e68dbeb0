-- ===== src/Acl/Change.antt =====
-- The operations that change the list or its counters (server/acl/acl.go). A mutex that is locked
-- for a whole call is not modelled: calls follow one another.
pub mod Deletion
pub mod Duplicates
use toh.Base.{
  ℕ, zero, suc, ◌+◌, ◌-◌, Text, same, Bool, true, false, Option, none, some, List, [], ◌∷◌, ◌++◌,
  map, length, get_elem?, take, drop, ltb, if◌then◌else◌, Result, ok, err, ◌>>=◌,
}
use toh.Base.Dict.{lookup, insert, erase}
use toh.Base.Words.{add64}
use toh.Api.{BytesUsage, no_usage, Limit, no_limit}
use toh.Acl.State.{Acl, Key, StoKey, External, AclError, outside, write, count_update}

unfoldable pub update_bytes_usage : Text → ℕ → ℕ → Acl → Acl
unfolding add64 count_update
update_bytes_usage key received sent a = elim (lookup key a.keys) [
  | some k ↦ count_update (record a {
    cells = write a.cells k.bytes_usage (record {
      in_bytes = add64 (a.cells k.bytes_usage).in_bytes received;
      out_bytes = add64 (a.cells k.bytes_usage).out_bytes sent;
    });
  })
  | none ↦ a
]

-- A live key with no limits, and a counter at `p`.
abbrev pub unlimited : ℕ → Key
unlimited p = record {
  bytes_limit = 0;
  in_bytes_limit = 0;
  out_bytes_limit = 0;
  bytes_usage = p;
  whitelist = none;
  blacklist = none;
}

-- `delete_loop rounds i key arr len`: the rest of the range loop of `DelKey`, from index `i`. The
-- loop runs over the array as it was long at first, while each `append` moves the elements behind
-- the match down by one place and shortens the slice, `len`, but not the array, `arr`. It panics
-- where the bounds of `a.sto.Keys[i+1:]` are out of order.
unfoldable pub delete_loop : ℕ → ℕ → Text → List StoKey → ℕ → Bool × List StoKey × ℕ
delete_loop zero i key arr len = (false, arr, len)
delete_loop (suc rounds) i key arr len = elim (get_elem? arr i) [
  | none ↦ (false, arr, len)
  | some v ↦ elim (same v.key key) [
    | false ↦ delete_loop rounds (suc i) key arr len
    | true ↦ elim (ltb len (suc i)) [
      | true ↦ (true, arr, len)
      | false ↦
          delete_loop rounds (suc i) key
            (take i arr ++ (drop (suc i) (take len arr) ++ drop (len - 1) arr)) (len - 1)
    ]
  ]
]

-- The flag says that the loop panicked; what was written before stays written.
unfoldable pub del_key : Text → Acl → Bool × Acl
unfolding delete_loop count_update
del_key key a =
    let (panicked, arr, len) =
      delete_loop (length a.sto_keys) 0 key a.sto_keys (length a.sto_keys) in
    (panicked, count_update (record a { keys = erase key a.keys; sto_keys = take len arr }))

unfoldable pub get_limit : Text → List StoKey → Limit
get_limit key [] = no_limit
get_limit key (ke ∷ rest) =
    if same ke.key key then (elim ke.limit [ none ↦ no_limit | some l ↦ l ]) else get_limit key rest

unfoldable pub get_usage : Text → Acl → BytesUsage
get_usage key a = elim (lookup key a.keys) [ some k ↦ a.cells k.bytes_usage | none ↦ no_usage ]

unfoldable pub del_usage : Text → Acl → Acl
unfolding count_update
del_usage key a = elim (lookup key a.keys) [
  | some k ↦ count_update (record a {
    keys = insert key (record k { bytes_usage = a.next }) a.keys;
    cells = write a.cells a.next no_usage;
    next = a.next + 1;
  })
  | none ↦ count_update a
]

-- The loop of `Limit`: every stored key of that text gets the limit.
unfoldable pub set_limit : Text → Option Limit → List StoKey → List StoKey
set_limit key l [] = []
set_limit key l (ke ∷ rest) =
    (if same ke.key key then record ke { limit = l } else ke) ∷ set_limit key l rest

-- `Limit` from the call of `applyACLKeyLimit` on. The live key is changed in place, so an error
-- leaves in the map what was assigned before it.
unfoldable pub finish_limit :
    Text → Option Limit → Acl → Result (Text × Key) Key → Option Text × Acl
unfolding count_update set_limit
finish_limit key l a (err (e, k)) = (some e, count_update (record a { keys = insert key k a.keys }))
finish_limit key l a (ok k) = (
  none,
  count_update (record a { keys = insert key k a.keys; sto_keys = set_limit key l a.sto_keys }),
)

module _ (x : External) where
  -- One of the three numeric fields of a limit; an error comes with the key as it is then.
  unfoldable pub apply_bytes : Text → (ℕ → Key → Key) → Key → Result (Text × Key) Key
  apply_bytes s assign ke =
      if same s []
      then ok ke
      else elim (x.parse_bytes s) [ ok b ↦ ok (assign b ke) | err e ↦ err (e, ke) ]

  unfoldable pub apply_acl_key_limit : Key → Option Limit → Result (Text × Key) Key
  unfolding apply_bytes
  apply_acl_key_limit ke none = ok ke
  apply_acl_key_limit ke (some l) = do
    k₁ ← apply_bytes l.bytes (λ b k. record k { bytes_limit = b }) ke
    k₂ ← apply_bytes l.in_bytes (λ b k. record k { in_bytes_limit = b }) k₁
    k₃ ← apply_bytes l.out_bytes (λ b k. record k { out_bytes_limit = b }) k₂
    ok (record k₃ { blacklist = l.blacklist; whitelist = l.whitelist })

  -- `buf` is what `rand.Reader` gave.
  unfoldable pub new_key : Text → Text → Acl → Text × Acl
  unfolding count_update
  new_key buf name a =
      let k = x.check_encode buf (1 ∷ 0 ∷ []) in
      (
        k,
        count_update (record a {
          keys = insert k (unlimited a.next) a.keys;
          sto_keys =
              a.sto_keys ++ record { name = name; key = k; limit = none; bytes_usage = none } ∷ [];
          cells = write a.cells a.next no_usage;
          next = a.next + 1;
        }),
      )

  -- `Limit`; the result is the error.
  unfoldable pub set_key_limit : Text → Option Limit → Acl → Option Text × Acl
  unfolding count_update finish_limit
  set_key_limit key l a = elim (lookup key a.keys) [
    | none ↦ (none, count_update a)
    | some k ↦ finish_limit key l a (apply_acl_key_limit k l)
  ]
