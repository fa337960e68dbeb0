-- ===== src/Acl/Isolation.antt =====
-- The operations of server/acl/acl.go on one key leave every other key alone.
use toh.Base.{
  ℕ, ◌<◌, Text, ◌≡◌, refl, ◌≢◌, Option, none, some, [], ◌∷◌, arith, Result, ok, err, Option-cases,
  inl, inr,
}
use toh.Base.Dict.{lookup, insert, lookup-insert, lookup-erase}
use toh.Api.{BytesUsage, Limit}
use toh.Acl.State.{Acl, Key, External}
use toh.Acl.Change.{
  update_bytes_usage, del_key, del_usage, unlimited, apply_acl_key_limit, new_key, finish_limit,
  set_key_limit,
}

-- No two live keys share a counter, and no counter lies among the free addresses.
pub record IsSound (a : Acl) : Type 0 where
  pub in_range : (j : Text) (k : Key) → lookup j a.keys ≡ some k → k.bytes_usage < a.next
  pub apart :
      (i j : Text) (k m : Key)
      → lookup i a.keys ≡ some k
      → lookup j a.keys ≡ some m
      → k.bytes_usage ≡ m.bytes_usage
      → i ≡ j

-- A call of an operation that changes the list.
pub data Op : Type 0 where
  used : Text → ℕ → ℕ → Op
  created : Text → Text → Op
  deleted : Text → Op
  limited : Text → Option Limit → Op
  usage_deleted : Text → Op

-- A live key with its counter.
abbrev pub live : Text → Acl → Option (Key × BytesUsage)
live j a = elim (lookup j a.keys) [ none ↦ none | some k ↦ some (k, a.cells k.bytes_usage) ]

pub step-IsSound_used :
    (key : Text) (r s : ℕ) (a : Acl) → IsSound a → IsSound (update_bytes_usage key r s a)
unfolding update_bytes_usage
step-IsSound_used key r s a h = record {
  in_range = λ j k. ground (arith, h.in_range j k);
  apart = λ i j k m. ground (arith, h.apart i j k m);
}

others_used :
    (a : Acl) (j : Text) (h : IsSound a) (key : Text) (r s : ℕ)
    → j ≢ key
    → live j (update_bytes_usage key r s a) ≡ live j a
unfolding update_bytes_usage
others_used a j h key r s ne = elim (Option-cases (lookup j a.keys)) [
  | inl missing ↦ ground arith
  | inr (m, there) ↦ elim (Option-cases (lookup key a.keys)) [
    | inl missing ↦ ground arith
    | inr (k, found) ↦ ground (arith, h.apart j key m k)
  ]
]

module _ (x : External) where
  unfoldable pub step : Op → Acl → Acl
  step (used key received sent) a = update_bytes_usage key received sent a
  step (created buf name) a = (new_key x buf name a).1
  step (deleted key) a = (del_key key a).1
  step (limited key l) a = (set_key_limit x key l a).1
  step (usage_deleted key) a = del_usage key a

  unfoldable pub target : Op → Text
  target (used key _ _) = key
  target (created buf name) = x.check_encode buf (1 ∷ 0 ∷ [])
  target (deleted key) = key
  target (limited key _) = key
  target (usage_deleted key) = key

  -- A limit never moves the counter of a key.
  abbrev pub SameCounter : Key → Result (Text × Key) Key → Type 0
  SameCounter k (ok k') = k'.bytes_usage ≡ k.bytes_usage
  SameCounter k (err (_, k')) = k'.bytes_usage ≡ k.bytes_usage

  pub apply_counter : (k : Key) (l : Option Limit) → SameCounter k (apply_acl_key_limit x k l)
  unfolding apply_acl_key_limit
  apply_counter k none = refl
  apply_counter k (some l) = ground arith

  step-IsSound_created : (buf name : Text) (a : Acl) → IsSound a → IsSound (new_key x buf name a).1
  unfolding new_key
  step-IsSound_created buf name a h =
      let new = x.check_encode buf (1 ∷ 0 ∷ []) in
      record {
        in_range =
            λ j k. ground (arith, h.in_range j k, lookup-insert j new (unlimited a.next) a.keys);
        apart = λ i j k m. ground (
          arith,
          h.apart i j k m,
          h.in_range i k,
          h.in_range j m,
          lookup-insert i new (unlimited a.next) a.keys,
          lookup-insert j new (unlimited a.next) a.keys,
        );
      }

  step-IsSound_deleted : (key : Text) (a : Acl) → IsSound a → IsSound (del_key key a).1
  unfolding del_key
  step-IsSound_deleted key a h = record {
    in_range = λ j k. ground (arith, h.in_range j k, lookup-erase j key a.keys);
    apart = λ i j k m.
        ground (arith, h.apart i j k m, lookup-erase i key a.keys, lookup-erase j key a.keys);
  }

  -- The key of a text gets another value with the same counter.
  IsSound-insert :
      (key : Text) (k k' : Key) (a b : Acl)
      → IsSound a
      → lookup key a.keys ≡ some k
      → k'.bytes_usage ≡ k.bytes_usage
      → b.keys ≡ insert key k' a.keys
      → b.next ≡ a.next
      → IsSound b
  IsSound-insert key k k' a b h found counter keys next = record {
    in_range = λ j m.
        ground (arith, keys, next, h.in_range j m, h.in_range key k, lookup-insert j key k' a.keys);
    apart = λ i j m n. ground (
      arith,
      h.apart i j m n,
      h.apart key j k n,
      h.apart i key m k,
      lookup-insert i key k' a.keys,
      lookup-insert j key k' a.keys,
    );
  }

  finish-IsSound :
      (key : Text) (l : Option Limit) (k : Key) (a : Acl)
      → IsSound a
      → lookup key a.keys ≡ some k
      → (r : Result (Text × Key) Key) → SameCounter k r
      → IsSound (finish_limit key l a r).1
  unfolding finish_limit
  finish-IsSound key l k a h found (ok k') e = IsSound-insert key k k' a _ h found e refl refl
  finish-IsSound key l k a h found (err (_, k')) e = IsSound-insert key k k' a _ h found e refl refl

  step-IsSound_limited :
      (key : Text) (l : Option Limit) (a : Acl) → IsSound a → IsSound (set_key_limit x key l a).1
  unfolding set_key_limit
  step-IsSound_limited key l a h = elim (Option-cases (lookup key a.keys)) [
    | inl missing ↦ rw (missing, set_key_limit) (record { in_range = h.in_range; apart = h.apart })
    | inr (k, found) ↦
        rw (found, set_key_limit)
          (finish-IsSound key l k a h found (apply_acl_key_limit x k l) (apply_counter k l))
  ]

  step-IsSound_usage_deleted : (key : Text) (a : Acl) → IsSound a → IsSound (del_usage key a)
  unfolding del_usage
  step-IsSound_usage_deleted key a h = elim (Option-cases (lookup key a.keys)) [
    | inl missing ↦ rw (missing, del_usage) (record { in_range = h.in_range; apart = h.apart })
    | inr (k, found) ↦
        rw (found, del_usage)
          (record {
            in_range = λ j m. ground (
              arith,
              h.in_range j m,
              lookup-insert j key (record k { bytes_usage = a.next }) a.keys,
            );
            apart = λ i j m n. ground (
              arith,
              h.apart i j m n,
              h.in_range i m,
              h.in_range j n,
              lookup-insert i key (record k { bytes_usage = a.next }) a.keys,
              lookup-insert j key (record k { bytes_usage = a.next }) a.keys,
            );
          })
  ]

  -- Where no two live keys share a counter, and no counter lies among the free addresses, that holds
  -- after every operation too.
  pub step-IsSound : (op : Op) (a : Acl) → IsSound a → IsSound (step op a)
  unfolding step
  step-IsSound (used key r s) a h = step-IsSound_used key r s a h
  step-IsSound (created buf name) a h = step-IsSound_created buf name a h
  step-IsSound (deleted key) a h = step-IsSound_deleted key a h
  step-IsSound (limited key l) a h = step-IsSound_limited key l a h
  step-IsSound (usage_deleted key) a h = step-IsSound_usage_deleted key a h

  module _ (a : Acl) (j : Text) (h : IsSound a) where
    others_created :
        (buf name : Text)
        → j ≢ x.check_encode buf (1 ∷ 0 ∷ [])
        → live j (new_key x buf name a).1 ≡ live j a
    unfolding new_key
    others_created buf name ne =
        let new = x.check_encode buf (1 ∷ 0 ∷ []) in
        elim (Option-cases (lookup j a.keys)) [
          | inl missing ↦ ground (arith, lookup-insert j new (unlimited a.next) a.keys)
          | inr (m, there) ↦
              ground (arith, h.in_range j m, lookup-insert j new (unlimited a.next) a.keys)
        ]

    others_deleted : (key : Text) → j ≢ key → live j (del_key key a).1 ≡ live j a
    unfolding del_key
    others_deleted key ne = ground (arith, lookup-erase j key a.keys)

    others_finish :
        (key : Text) (l : Option Limit) (r : Result (Text × Key) Key)
        → j ≢ key
        → live j (finish_limit key l a r).1 ≡ live j a
    unfolding finish_limit
    others_finish key l (ok k) ne = ground (arith, lookup-insert j key k a.keys)
    others_finish key l (err (_, k)) ne = ground (arith, lookup-insert j key k a.keys)

    others_limited :
        (key : Text) (l : Option Limit) → j ≢ key → live j (set_key_limit x key l a).1 ≡ live j a
    unfolding set_key_limit
    others_limited key l ne = elim (Option-cases (lookup key a.keys)) [
      | inl missing ↦ rw (missing, set_key_limit)
      | inr (k, found) ↦
          rw (found, set_key_limit) (others_finish key l (apply_acl_key_limit x k l) ne)
    ]

    others_usage_deleted : (key : Text) → j ≢ key → live j (del_usage key a) ≡ live j a
    unfolding del_usage
    others_usage_deleted key ne = elim (Option-cases (lookup key a.keys)) [
      | inl missing ↦ rw (missing, del_usage)
      | inr (k, found) ↦ elim (Option-cases (lookup j a.keys)) [
        | inl missing ↦
            ground (arith, lookup-insert j key (record k { bytes_usage = a.next }) a.keys)
        | inr (m, there) ↦
            ground (
              arith,
              h.in_range j m,
              lookup-insert j key (record k { bytes_usage = a.next }) a.keys,
            )
      ]
    ]

    -- Where no two live keys share a counter, and no counter lies among the free addresses: an
    -- operation on one key changes neither the limits
    -- nor the usage of any other key, and adds or removes no other key.
    pub step-others : (op : Op) → j ≢ target op → live j (step op a) ≡ live j a
    unfolding step target
    step-others (used key r s) ne = others_used a j h key r s ne
    step-others (created buf name) ne = others_created buf name ne
    step-others (deleted key) ne = others_deleted key ne
    step-others (limited key l) ne = others_limited key l ne
    step-others (usage_deleted key) ne = others_usage_deleted key ne
