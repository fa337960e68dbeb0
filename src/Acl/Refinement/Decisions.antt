-- ===== src/Acl/Refinement/Decisions.antt =====
-- What `Check` of server/acl/acl.go decides after any operations.
use toh.Base.{
  Text, same_iff, ◌≡◌, ◌≢◌, ◌↔◌, ◌⊎◌, ◌+◌, ◌<◌, sym, subst, Bool-cases, true, false, Holds, none,
  some, refl, ◌∙◌, ap, Option, Option-cases, inl, inr, List, [], ◌∷◌, arith, Result, ok, err,
}
use toh.Base.Dict.{lookup}
use toh.Api.{BytesUsage, Limit}
use toh.Acl.State.{Acl, Key, External}
use toh.Base.Words.{modulus64}
use toh.Acl.Quota.Bounds.{IsWord64, Agrees, MayReceive, MaySend}
use toh.Acl.Access.Policy.{Permits, check_iff}
use toh.Acl.Access.Allowance.{check_usage_iff, admitted_iff}
use toh.Acl.Quota.{in_bytes_limited, out_bytes_limited}
use toh.Acl.Access.{admin_enabled, is_admin_access, check_usage, check_key, check}
use toh.Acl.Change.{
  update_bytes_usage, del_key, del_usage, new_key, finish_limit, set_key_limit, apply_acl_key_limit,
}
use toh.Acl.Isolation.{Op, used, created, deleted, limited, usage_deleted, step, IsSound}
use toh.Acl.Refinement.{User, as_user, as_key, users, run, effects}
use toh.Acl.Refinement.Steps.{run_refines}

-- The key is the admin's, where there is one.
abbrev pub IsAdmin : Text → Text → Type 0
IsAdmin admin_key key = (admin_key ≢ []) × (admin_key ≡ key)

is_admin_access_iff :
    (a : Acl) (key : Text) → (is_admin_access a key ≡ true) ↔ IsAdmin a.admin_key key
unfolding is_admin_access admin_enabled
is_admin_access_iff a key = ground (arith, same_iff a.admin_key [], same_iff a.admin_key key)

-- The limits of a user are 64-bit numbers that agree, and the user's traffic is below 2 ^ 64 bytes.
pub record IsFair (u : User) : Type 0 where
  pub words : IsWord64 (as_key u) u.usage
  pub agrees : Agrees (as_key u)
  pub small : u.usage.in_bytes + u.usage.out_bytes < modulus64

-- A user may still receive and send, and the lists permit the network and address.
abbrev pub IsAdmitted : Text → Text → User → Type 0
IsAdmitted network addr u =
    (MayReceive (as_key u) u.usage × MaySend (as_key u) u.usage)
    × Permits u.whitelist u.blacklist network addr

check_usage_lem :
    (k : Key) (u : BytesUsage) → check_usage (as_key (as_user k u)) u ≡ check_usage k u
unfolding check_usage in_bytes_limited out_bytes_limited
check_usage_lem k u = refl

outsider_iff :
    (a : Acl) (key network addr : Text)
    → is_admin_access a key ≡ false
    → ((u : User) → users a key ≡ some u → IsFair u)
    → (check a key network addr ≡ none) ↔ Holds (IsAdmitted network addr) (users a key)
unfolding users check check_key
outsider_iff a key network addr outsider fair = elim (Option-cases (lookup key a.keys)) [
  | inl missing ↦ ground (arith, missing, outsider)
  | inr (k, found) ↦
      let usage = a.cells k.bytes_usage in
      let u : User = as_user k usage in
      let is_fair : IsFair u = fair u (ground (arith, found)) in
      let within = check_usage_iff (as_key u) usage is_fair.words is_fair.agrees is_fair.small in
      let admitted = admitted_iff a key network addr k usage found refl outsider in
      rw found (ground (arith, admitted, within, check_usage_lem k usage))
]

check-users :
    (a : Acl) (key network addr : Text)
    → ((u : User) → users a key ≡ some u → IsFair u)
    → (check a key network addr ≡ none)
      ↔ (IsAdmin a.admin_key key ⊎ Holds (IsAdmitted network addr) (users a key))
check-users a key network addr fair = elim (Bool-cases (is_admin_access a key)) [
  | inl admin ↦ ground (arith, admin, is_admin_access_iff a key, check_iff a key network addr)
  | inr outsider ↦
      ground
        (arith, outsider, is_admin_access_iff a key, outsider_iff a key network addr outsider fair)
]

finish-admin_key :
    (key : Text) (l : Option Limit) (a : Acl) (r : Result (Text × Key) Key)
    → (finish_limit key l a r).1.admin_key ≡ a.admin_key
unfolding finish_limit
finish-admin_key key l a (ok k) = refl
finish-admin_key key l a (err (_, k)) = refl

module _ (x : External) where
  step-admin_key : (op : Op) (a : Acl) → (step x op a).admin_key ≡ a.admin_key
  unfolding step update_bytes_usage new_key del_key del_usage set_key_limit
  step-admin_key (used key r s) a = ground arith
  step-admin_key (created buf name) a = refl
  step-admin_key (deleted key) a = refl
  step-admin_key (limited key l) a = elim (Option-cases (lookup key a.keys)) [
    | inl missing ↦ ground arith
    | inr (k, found) ↦ ground (arith, found, finish-admin_key key l a (apply_acl_key_limit x k l))
  ]
  step-admin_key (usage_deleted key) a = ground arith

  run-admin_key : (ops : List Op) (a : Acl) → (run x ops a).admin_key ≡ a.admin_key
  unfolding run
  run-admin_key [] a = refl
  run-admin_key (op ∷ ops) a = run-admin_key ops (step x op a) ∙ step-admin_key op a

  -- Where no two live keys share a counter, and no counter lies among the free addresses, and where
  -- for the user that the effects of some operations leave at a key, if they leave one, the limits
  -- are 64-bit numbers that agree and the traffic is below 2 ^ 64 bytes: after the operations,
  -- `Check` lets the key through exactly if it is the admin's, or there is such a user, who may
  -- still receive and send, and whose lists permit the network and address.
  pub check-run :
      (ops : List Op) (a : Acl) (key network addr : Text)
      → IsSound a
      → ((u : User) → effects x ops (users a) key ≡ some u → IsFair u)
      → (check (run x ops a) key network addr ≡ none)
        ↔ (IsAdmin a.admin_key key ⊎ Holds (IsAdmitted network addr) (effects x ops (users a) key))
  check-run ops a key network addr h fair =
      let (sound, seen) = run_refines x ops a h in
      let seen_key : users (run x ops a) key ≡ effects x ops (users a) key =
        ap (λ us. us key) seen in
      let decided =
        check-users (run x ops a) key network addr (λ u there. fair u (sym seen_key ∙ there)) in
      subst
        (λ (o : Option User).
          (check (run x ops a) key network addr ≡ none)
          ↔ (IsAdmin a.admin_key key ⊎ Holds (IsAdmitted network addr) o))
        seen_key
        (subst
          (λ m.
            (check (run x ops a) key network addr ≡ none)
            ↔ (IsAdmin m key ⊎ Holds (IsAdmitted network addr) (users (run x ops a) key)))
          (run-admin_key ops a) decided)
