-- ===== src/Acl/Storage/Durability.antt =====
-- What the file holds while the list of server/acl/acl.go changes and is persisted from time to time.
use toh.Base.{
  ℕ, ◌+◌, ◌^◌, ◌≤◌, ◌<◌, Text, ◌≡◌, refl, sym, ap, ◌⊎◌, Bool-cases, true, false, Option,
  Option-cases, some, inl, inr, List, [], ◌∷◌, length, ltb, ◌&&◌, Any, arith, Result, ok, err,
}
use toh.Base.Dict.{lookup}
use toh.Base.Words.{add64, positive64}
use toh.Api.{Limit}
use toh.Acl.State.{Acl, Key, StoKey, External, count_update}
use toh.Acl.Change.{
  update_bytes_usage, del_key, del_usage, new_key, finish_limit, set_key_limit, apply_acl_key_limit,
  get_usage,
}
use toh.Acl.Isolation.{Op, used, created, deleted, limited, usage_deleted, step}
use toh.Acl.Storage.{
  Codec, Disk, Faults, no_faults, storage, take_usage, persist, persist_round, new_acl,
}
use toh.Acl.Storage.Restart.{written, new_acl-written}

-- An operation that changes anything is counted.
abbrev IsCounted : Acl → Acl → Type 0
IsCounted a b = (b ≡ a) ⊎ (b.pending ≡ add64 a.pending 1)

finish-IsCounted :
    (key : Text) (l : Option Limit) (a : Acl) (r : Result (Text × Key) Key)
    → (finish_limit key l a r).1.pending ≡ add64 a.pending 1
unfolding finish_limit count_update
finish-IsCounted key l a (ok k) = refl
finish-IsCounted key l a (err (_, k)) = refl

step-IsCounted : (x : External) (op : Op) (a : Acl) → IsCounted a (step x op a)
unfolding step update_bytes_usage new_key del_key set_key_limit del_usage count_update
step-IsCounted x (used key r s) a = elim (Option-cases (lookup key a.keys)) [
  | inl missing ↦ inl (ground (arith, missing))
  | inr (k, found) ↦ inr (ground (arith, found))
]
step-IsCounted x (created buf name) a = inr refl
step-IsCounted x (deleted key) a = inr refl
step-IsCounted x (limited key l) a = elim (Option-cases (lookup key a.keys)) [
  | inl missing ↦ inr (ground (arith, missing))
  | inr (k, found) ↦
      inr (ground (arith, found, finish-IsCounted key l a (apply_acl_key_limit x k l)))
]
step-IsCounted x (usage_deleted key) a = elim (Option-cases (lookup key a.keys)) [
  | inl missing ↦ inr (ground (arith, missing))
  | inr (k, found) ↦ inr (ground (arith, found))
]

-- What happens to the list: an operation, or a round of the loop that persists it.
pub data Event : Type 0 where
  operated : Op → Event
  persisted : Event

abbrev pub Stored : Type 0
Stored = Acl × Disk

take_usage_twice :
    (a b : Acl)
    → b.keys ≡ a.keys
    → (l : List StoKey) → take_usage b (take_usage a l) ≡ take_usage a l
unfolding take_usage
take_usage_twice a b e [] = refl
take_usage_twice a b e (k ∷ l) = elim (Option-cases (lookup k.key a.keys)) [
  | inl missing ↦ ground (arith, e, missing, take_usage_twice a b e l)
  | inr (m, found) ↦ ground (arith, e, found, take_usage_twice a b e l)
]

take_usage_same :
    (a b : Acl) → b.keys ≡ a.keys → (l : List StoKey) → take_usage b l ≡ take_usage a l
unfolding take_usage
take_usage_same a b e [] = refl
take_usage_same a b e (k ∷ l) = ground (arith, e, take_usage_same a b e l)

-- The list once it has been persisted, which writes the same again.
abbrev after_round : Acl → Acl
after_round a = record a { pending = 0; sto_keys = take_usage a a.sto_keys }

after_round-written : (a : Acl) → written (after_round a) ≡ written a
after_round-written a = ap (storage a.cells) (take_usage_twice a (after_round a) refl a.sto_keys)

none_pending : (n : ℕ) → n < 2 ^ 63 → positive64 n ≡ false → n ≡ 0
unfolding positive64
none_pending n small idle = ground arith

module _ (x : External) (json : Codec) where
  pub round_idle :
      (a : Acl) (disk : Disk) (faults : Faults)
      → positive64 a.pending ≡ false
      → persist_round json faults a disk ≡ (a, disk)
  unfolding persist_round
  round_idle a disk faults idle = ground (arith, idle)

  round_busy :
      (a : Acl) (disk : Disk) (content : Text)
      → positive64 a.pending ≡ true
      → disk.acl_file ≡ some content
      → persist_round json no_faults a disk
        ≡ (after_round a, record disk { acl_file = some (json.encode (written a)) })
  unfolding persist_round persist
  round_busy a disk content busy there =
      ground (arith, busy, there, take_usage_same a (record a { pending = 0 }) refl a.sto_keys)

  unfoldable pub event : Event → Stored → Stored
  event (operated op) (a, disk) = (step x op a, disk)
  event persisted (a, disk) = persist_round json no_faults a disk

  unfoldable pub events : List Event → Stored → Stored
  unfolding event
  events [] s = s
  events (e ∷ es) s = events es (event e s)

  -- The file is there; and where no update is pending, it holds what would be written now.
  pub record IsRecorded (s : Stored) : Type 0 where
    pub file : (content : Text) × (s.1.acl_file ≡ some content)
    pub current : s.0.pending ≡ 0 → s.1.acl_file ≡ some (json.encode (written s.0))

  operated-IsRecorded :
      (op : Op) (a : Acl) (disk : Disk)
      → IsRecorded (a, disk)
      → a.pending + 1 < 2 ^ 64
      → IsRecorded (step x op a, disk)
  unfolding add64
  operated-IsRecorded op a disk h small = record {
    file = h.file;
    current = λ none_pending. elim (step-IsCounted x op a) [
      | inl same_list ↦ ground (arith, h.current, none_pending, same_list)
      | inr counted ↦ absurd (omega arith)
    ];
  }

  -- A round leaves nothing pending, and the file as it should be.
  persisted_lem :
      (a : Acl) (disk : Disk)
      → IsRecorded (a, disk)
      → a.pending < 2 ^ 63
      → let s' = persist_round json no_faults a disk in
        (s'.0.pending ≡ 0)
        × (s'.0.keys ≡ a.keys)
        × (s'.0.cells ≡ a.cells)
        × (s'.1.acl_file ≡ some (json.encode (written s'.0)))
  persisted_lem a disk h small = elim (Bool-cases (positive64 a.pending)) [
    | inl busy ↦
        let (content, there) = h.file in
        rw (round_busy a disk content busy there)
          (refl, refl, refl, ap (λ ks. some (json.encode ks)) (sym (after_round-written a)))
    | inr idle ↦
        let zero_pending = none_pending a.pending small idle in
        rw (round_idle a disk no_faults idle) (zero_pending, refl, refl, h.current zero_pending)
  ]

  step-pending : (op : Op) (a : Acl) → (step x op a).pending ≤ a.pending + 1
  unfolding add64
  step-pending op a = elim (step-IsCounted x op a) [
    | inl same_list ↦ omega (arith, ap (λ b. b.pending) same_list)
    | inr counted ↦ omega (arith, counted)
  ]

  -- The pending updates, after some events, are at most as many as these.
  events-IsRecorded :
      (es : List Event) (s : Stored)
      → IsRecorded s
      → s.0.pending + length es < 2 ^ 63
      → IsRecorded (events es s) × ((events es s).0.pending < 2 ^ 63)
  unfolding events event add64
  events-IsRecorded [] s h small = (h, omega arith)
  events-IsRecorded (operated op ∷ es) (a, disk) h small =
      events-IsRecorded es (step x op a, disk) (operated-IsRecorded op a disk h (omega arith))
        (omega (arith, step-pending op a))
  events-IsRecorded (persisted ∷ es) (a, disk) h small =
      let (none_left, same_keys, same_cells, there) = persisted_lem a disk h (omega arith) in
      events-IsRecorded es (persist_round json no_faults a disk)
        (record { file = (_, there); current = λ _. there }) (omega arith)

  -- Where the file holds the list and no update is pending, and no system call fails: after fewer
  -- than 2 ^ 63 events, each an operation or a round of the loop that persists, one more round
  -- leaves nothing pending and the keys and counters as they are; and where the admin key is empty
  -- or has 16 bytes or more, and the decoder gives back what the encoder has written, a restart
  -- from the file makes every key live that was live and stored, with exactly the usage that it
  -- had.
  pub restart_after_round :
      (es : List Event) (a : Acl) (disk : Disk) (admin_key buf j : Text) (k : Key)
      → disk.acl_file ≡ some (json.encode (written a))
      → a.pending ≡ 0
      → length es < 2 ^ 63
      → (ltb 0 (length admin_key) && ltb (length admin_key) 16) ≡ false
      → let (b, d) = events es (a, disk) in
        let (b', d') = persist_round json no_faults b d in
        json.decode (json.encode (written b')) ≡ ok (written b')
        → lookup j b'.keys ≡ some k
        → Any (λ s. s.key ≡ j) b'.sto_keys
        → (b'.pending ≡ 0)
          × (b'.keys ≡ b.keys)
          × (b'.cells ≡ b.cells)
          × ((c : Acl) × ((new_acl x json admin_key buf no_faults d').0 ≡ ok c)
              × ((m : Key) × (lookup j c.keys ≡ some m))
              × (get_usage j c ≡ get_usage j b'))
  restart_after_round es a disk admin_key buf j k there clean few fine trip live stored =
      let start : IsRecorded (a, disk) = record { file = (_, there); current = λ _. there } in
      let (recorded, small) = events-IsRecorded es (a, disk) start (omega arith) in
      let (b, d) = events es (a, disk) in
      let (none_left, same_keys, same_cells, written_now) = persisted_lem b d recorded small in
      (
        none_left,
        same_keys,
        same_cells,
        new_acl-written x json (persist_round json no_faults b d).0 admin_key buf j k trip fine live
            stored (persist_round json no_faults b d).1 written_now,
      )
