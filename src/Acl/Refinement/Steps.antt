-- ===== src/Acl/Refinement/Steps.antt =====
-- Every operation of server/acl/acl.go does to what is seen of the list what it is meant to do.
use mathlib.Core.Path.{fun_ext}
use toh.Base.{
  ℕ, Text, same_iff, ◌≡◌, refl, ap, ◌∙◌, Option, Option-cases, none, some, inl, inr, List, [], ◌∷◌,
  arith, Result, ok, err,
}
use toh.Base.Dict.{lookup, lookup-insert, lookup-erase}
use toh.Api.{BytesUsage, no_usage, Limit}
use toh.Acl.State.{Acl, Key, External}
use toh.Acl.Change.{
  update_bytes_usage, del_key, del_usage, unlimited, apply_acl_key_limit, apply_bytes, new_key,
  finish_limit, set_key_limit,
}
use toh.Acl.Isolation.{
  Op, used, created, deleted, limited, usage_deleted, step, IsSound, step-IsSound, SameCounter,
  apply_counter,
}
use toh.Acl.Refinement.{
  as_user, users, assign, change, charged, newcomer, restricted_or_kept, effect, run, effects,
}

module _ (x : External) (a : Acl) (h : IsSound a) (j : Text) where
  users_used :
      (key : Text) (r s : ℕ)
      → users (update_bytes_usage key r s a) j ≡ change key (charged r s) (users a) j
  unfolding users update_bytes_usage
  users_used key r s = elim (Option-cases (lookup key a.keys)) [
    | inl missing ↦ ground arith
    | inr (k, found) ↦ elim (Option-cases (lookup j a.keys)) [
      | inl gone ↦ ground (arith, same_iff key j)
      | inr (m, there) ↦ ground (arith, h.apart j key m k, same_iff key j)
    ]
  ]

  users_created :
      (buf name : Text)
      → users (new_key x buf name a).1 j
        ≡ assign (x.check_encode buf (1 ∷ 0 ∷ [])) (some newcomer) (users a) j
  unfolding users new_key
  users_created buf name =
      let new = x.check_encode buf (1 ∷ 0 ∷ []) in
      elim (Option-cases (lookup j a.keys)) [
        | inl missing ↦ ground (arith, lookup-insert j new (unlimited a.next) a.keys)
        | inr (m, there) ↦
            ground (arith, h.in_range j m, lookup-insert j new (unlimited a.next) a.keys)
      ]

  users_deleted : (key : Text) → users (del_key key a).1 j ≡ assign key none (users a) j
  unfolding users del_key
  users_deleted key = ground (arith, lookup-erase j key a.keys)

  users_usage_deleted :
      (key : Text)
      → users (del_usage key a) j ≡ change key (λ u. record u { usage = no_usage }) (users a) j
  unfolding users del_usage
  users_usage_deleted key = elim (Option-cases (lookup key a.keys)) [
    | inl missing ↦ ground arith
    | inr (k, found) ↦ elim (Option-cases (lookup j a.keys)) [
      | inl gone ↦
          ground
            (arith, same_iff key j, lookup-insert j key (record k { bytes_usage = a.next }) a.keys)
      | inr (m, there) ↦ ground (
        arith,
        h.in_range j m,
        same_iff key j,
        lookup-insert j key (record k { bytes_usage = a.next }) a.keys,
      )
    ]
  ]

-- A result of the code as the user that it leaves behind.
abbrev kept : Result (Text × Key) Key → Key
kept (ok k) = k
kept (err (_, k)) = k

module _ (x : External) where
  apply_lem :
      (k : Key) (l : Option Limit) (u : BytesUsage)
      → as_user (kept (apply_acl_key_limit x k l)) u ≡ restricted_or_kept x l (as_user k u)
  unfolding apply_acl_key_limit apply_bytes
  apply_lem k none u = refl
  apply_lem k (some l) u = ground arith

  users_finish :
      (a : Acl) (j key : Text) (l : Option Limit) (k : Key)
      → lookup key a.keys ≡ some k
      → (r : Result (Text × Key) Key) → SameCounter x k r
      → users (finish_limit key l a r).1 j
        ≡ assign key (some (as_user (kept r) (a.cells k.bytes_usage))) (users a) j
  unfolding users finish_limit
  users_finish a j key l k found (ok k') e = ground (arith, lookup-insert j key k' a.keys)
  users_finish a j key l k found (err (_, k')) e = ground (arith, lookup-insert j key k' a.keys)

  users_limited :
      (a : Acl) (j key : Text) (l : Option Limit)
      → users (set_key_limit x key l a).1 j ≡ change key (restricted_or_kept x l) (users a) j
  unfolding users set_key_limit
  users_limited a j key l = elim (Option-cases (lookup key a.keys)) [
    | inl missing ↦ ground arith
    | inr (k, found) ↦
        let u = a.cells k.bytes_usage in
        let r = apply_acl_key_limit x k l in
        let finished = users_finish a j key l k found r (apply_counter x k l) in
        ground (arith, found, finished, apply_lem k l u)
  ]

  -- Where no two live keys share a counter, and no counter lies among the free addresses: what is
  -- seen of the list after an operation is the effect of the operation on what was seen before.
  step_refines : (op : Op) (a : Acl) → IsSound a → users (step x op a) ≡ effect x op (users a)
  unfolding step effect
  step_refines (used key r s) a h = fun_ext (λ j. users_used x a h j key r s)
  step_refines (created buf name) a h = fun_ext (λ j. users_created x a h j buf name)
  step_refines (deleted key) a h = fun_ext (λ j. users_deleted x a h j key)
  step_refines (limited key l) a h = fun_ext (λ j. users_limited a j key l)
  step_refines (usage_deleted key) a h = fun_ext (λ j. users_usage_deleted x a h j key)

  -- Where no two live keys share a counter, and no counter lies among the free addresses: after any
  -- operations that still holds, and what is seen of the list is what their effects, one after the
  -- other, make of what was seen before.
  pub run_refines :
      (ops : List Op) (a : Acl)
      → IsSound a
      → IsSound (run x ops a) × (users (run x ops a) ≡ effects x ops (users a))
  unfolding run effects
  run_refines [] a h = (h, refl)
  run_refines (op ∷ ops) a h =
      let (sound, seen) = run_refines ops (step x op a) (step-IsSound x op a h) in
      (sound, seen ∙ ap (effects x ops) (step_refines op a h))
