-- ===== src/Acl/Storage/Restart.antt =====
-- What a restart keeps: persist and NewACL of server/acl/acl.go, one after the other.
use toh.Base.{
  ℕ, ◌+◌, ◌<◌, ◌&&◌, Text, same, same_iff, ◌≡◌, refl, ◌∙◌, ap, ◌≢◌, ◌⊎◌, Bool-cases, false, none,
  some, List, [], ◌∷◌, All, Any, Option-cases, inl, inr, length, ltb, arith, ok,
}
use toh.Base.Dict.{lookup, lookup-insert}
use toh.Api.{BytesUsage, no_usage, ApiKey}
use toh.Acl.State.{Acl, Key, StoKey, External, write}
use toh.Acl.Change.{get_usage}
use toh.Acl.Storage.{
  Codec, Disk, no_faults, follow, storage, allocate, empty, load_at, load_key, load_keys, load,
  open_acl, new_acl, take_usage, persist,
}
use toh.Acl.Storage.Loading.{allocate-IsBetween, allocate-cells, in_force, in_force-counter}

module _ (j : Text) (u : BytesUsage) where
  -- Where the key is `j`, the stored usage is `u`.
  abbrev IsUsed : ApiKey → Type 0
  IsUsed k = k.key ≡ j → k.bytes_usage ≡ some u

  -- The same, in memory.
  abbrev PointsTo : (ℕ → BytesUsage) → ℕ → StoKey → Type 0
  PointsTo cells n k = k.key ≡ j → (q : ℕ) × (k.bytes_usage ≡ some q) × (q < n) × (cells q ≡ u)

  allocate-PointsTo :
      (ks : List ApiKey) (n : ℕ) (cells : ℕ → BytesUsage)
      → All IsUsed ks
      → let (l, cells', n') = allocate ks n cells in All (PointsTo cells' n') l
  unfolding allocate
  allocate-PointsTo [] n cells h = tt
  allocate-PointsTo (k ∷ ks) n cells h = elim (Option-cases k.bytes_usage) [
    | inl absent ↦
        rw (absent, allocate) ((λ e. absurd (cc (h.0 e, absent))), allocate-PointsTo ks n cells h.1)
    | inr (v, present) ↦
        let cells₁ = write cells n v in
        let (le, _) = allocate-IsBetween ks (n + 1) cells₁ in
        let kept = allocate-cells ks (n + 1) cells₁ n (omega arith) in
        rw (present, allocate)
          (
            (λ e. (n, refl, omega (arith, le), ground (arith, kept, h.0 e, present))),
            allocate-PointsTo ks (n + 1) cells₁ h.1,
          )
  ]

  -- The key is live, and its counter holds `u`.
  abbrev Has : Acl → Type 0
  Has a =
      (m : Key) × (lookup j a.keys ≡ some m)
      × (m.bytes_usage < a.next)
      × (a.cells m.bytes_usage ≡ u)

  allocate-Any :
      (ks : List ApiKey) (n : ℕ) (cells : ℕ → BytesUsage)
      → Any (λ k. k.key ≡ j) ks
      → Any (λ k. k.key ≡ j) (allocate ks n cells).0
  unfolding allocate
  allocate-Any [] n cells h = absurd h
  allocate-Any (k ∷ ks) n cells (inl e) = elim (Option-cases k.bytes_usage) [
    | inl absent ↦ rw (absent, allocate) (inl e)
    | inr (v, present) ↦ rw (present, allocate) (inl e)
  ]
  allocate-Any (k ∷ ks) n cells (inr h) = elim (Option-cases k.bytes_usage) [
    | inl absent ↦ rw (absent, allocate) (inr (allocate-Any ks n cells h))
    | inr (v, present) ↦ rw (present, allocate) (inr (allocate-Any ks (n + 1) (write cells n v) h))
  ]

  module _ (x : External) where
    -- A round of the loop uses the next free address.
    load_key_keeps :
        (k : StoKey) (a : Acl)
        → ((load_key x k a).next ≡ a.next + 1)
          × ((q : ℕ) → q < a.next → (load_key x k a).cells q ≡ a.cells q)
    unfolding load_key load_at
    load_key_keeps k a = (refl, λ q lt. ground arith)

    load_key-PointsTo :
        (k : StoKey) (a : Acl) (l : List StoKey)
        → All (PointsTo a.cells a.next) l
        → All (PointsTo (load_key x k a).cells (load_key x k a).next) l
    load_key-PointsTo k a [] h = tt
    load_key-PointsTo k a (s ∷ l) h =
        let (more, same_cells) = load_key_keeps k a in
        (
          (λ e.
              let (q, there, lt, used) = h.0 e in
              (q, there, omega (arith, more), same_cells q lt ∙ used)),
          load_key-PointsTo k a l h.1,
        )

    load_key-Has_new :
        (k : StoKey) (a : Acl) → PointsTo a.cells a.next k → k.key ≡ j → Has (load_key x k a)
    unfolding load_key load_at
    load_key-Has_new k a h e =
        let (q, there, lt, used) = h e in
        let (more, same_cells) = load_key_keeps k a in
        let counter = in_force-counter x q k.limit in
        (
          in_force x q k.limit,
          ground (arith, there, e, lookup-insert j k.key (in_force x q k.limit) a.keys),
          omega (arith, counter, more),
          ground (arith, counter, used),
        )

    load_key-Has_kept : (k : StoKey) (a : Acl) → k.key ≢ j → Has a → Has (load_key x k a)
    unfolding load_key load_at
    load_key-Has_kept k a ne (m, there, lt, used) =
        let (more, same_cells) = load_key_keeps k a in
        (
          m,
          ground (
            arith,
            ne,
            there,
            lookup-insert j k.key
                (in_force x (elim k.bytes_usage [ none ↦ a.next | some q ↦ q ]) k.limit) a.keys,
          ),
          omega (arith, more),
          same_cells m.bytes_usage lt ∙ used,
        )

    -- The loop ends with the key, if it was there or is among the keys that are loaded.
    load_keys-Has :
        (l : List StoKey) (a : Acl)
        → All (PointsTo a.cells a.next) l
        → Has a ⊎ Any (λ k. k.key ≡ j) l
        → Has (load_keys x l a)
    unfolding load_keys
    load_keys-Has [] a h (inl has) = has
    load_keys-Has [] a h (inr none_left) = absurd none_left
    load_keys-Has (k ∷ l) a h has =
        load_keys-Has l (load_key x k a) (load_key-PointsTo k a l h.1) (step has)
      where
        step : Has a ⊎ Any (λ s. s.key ≡ j) (k ∷ l) → Has (load_key x k a) ⊎ Any (λ s. s.key ≡ j) l
        step (inr (inr later)) = inr later
        step (inr (inl e)) = inl (load_key-Has_new k a h.0 e)
        step (inl there) = elim (Bool-cases (same k.key j)) [
          | inl e ↦ inl (load_key-Has_new k a h.0 ((same_iff k.key j).0 e))
          | inr ne ↦ inl (load_key-Has_kept k a (λ e. cc ((same_iff k.key j).1 e, ne)) there)
        ]

    load-Has :
        (admin_key : Text) (ks : List ApiKey)
        → All IsUsed ks
        → Any (λ k. k.key ≡ j) ks
        → Has (load x admin_key ks)
    unfolding load
    load-Has admin_key ks used there =
        let (l, cells, next) = allocate ks 0 (λ _. no_usage) in
        load_keys-Has l (record (empty admin_key) { sto_keys = l; cells = cells; next = next })
          (allocate-PointsTo ks 0 (λ _. no_usage) used)
          (inr (allocate-Any ks 0 (λ _. no_usage) there))

-- What is written for a live key is its usage.
storage-IsUsed :
    (a : Acl) (j : Text) (k : Key)
    → lookup j a.keys ≡ some k
    → (l : List StoKey) → All (IsUsed j (a.cells k.bytes_usage)) (storage a.cells (take_usage a l))
unfolding storage take_usage follow
storage-IsUsed a j k live [] = tt
storage-IsUsed a j k live (s ∷ l) = (
  (elim (Option-cases (lookup s.key a.keys)) [
    | inl gone ↦ rw gone (λ e. absurd (cc (gone, live, e)))
    | inr (m, there) ↦ rw there (λ e. ap some (ap a.cells (ap bytes_usage_of (m_is_k m there e))))
  ]),
  storage-IsUsed a j k live l,
)
  where
    bytes_usage_of : Key → ℕ
    bytes_usage_of m = m.bytes_usage

    m_is_k : (m : Key) → lookup s.key a.keys ≡ some m → s.key ≡ j → m ≡ k
    m_is_k m there e = cc (there, live, e)

storage-Any :
    (a : Acl) (j : Text) (l : List StoKey)
    → Any (λ s. s.key ≡ j) l
    → Any (λ s. s.key ≡ j) (storage a.cells (take_usage a l))
unfolding storage take_usage
storage-Any a j [] h = absurd h
storage-Any a j (s ∷ l) (inl e) = elim (Option-cases (lookup s.key a.keys)) [
  | inl gone ↦ rw gone (inl e)
  | inr (k, there) ↦ rw there (inl e)
]
storage-Any a j (s ∷ l) (inr h) = inr (storage-Any a j l h)

-- The keys as `persist` gives them to the encoder.
abbrev pub written : Acl → List ApiKey
written a = storage a.cells (take_usage a a.sto_keys)

module _ (x : External) (json : Codec) (a : Acl) (admin_key buf j : Text) (k : Key)
    (trip : json.decode (json.encode (written a)) ≡ ok (written a))
    (fine : (ltb 0 (length admin_key) && ltb (length admin_key) 16) ≡ false)
    (live : lookup j a.keys ≡ some k) (stored : Any (λ s. s.key ≡ j) a.sto_keys) where
  -- The file that is loaded has been written for the list as it is.
  pub new_acl-written :
      (disk : Disk)
      → disk.acl_file ≡ some (json.encode (written a))
      → (b : Acl) × ((new_acl x json admin_key buf no_faults disk).0 ≡ ok b)
        × ((m : Key) × (lookup j b.keys ≡ some m))
        × (get_usage j b ≡ get_usage j a)
  unfolding new_acl open_acl get_usage
  new_acl-written disk there =
      let (m, found, lt, used) =
        load-Has j (a.cells k.bytes_usage) x admin_key (written a)
          (storage-IsUsed a j k live a.sto_keys) (storage-Any a j a.sto_keys stored) in
      (
        load x admin_key (written a),
        ground (arith, fine, there, trip),
        (m, found),
        ground (arith, found, used, live),
      )

  -- Where the admin key is empty or has 16 bytes or more, the file is there, no system call fails,
  -- and the decoder gives back what the encoder has written: after the list has been persisted a
  -- restart loads it, and every key that was live and stored is live again, and has used exactly
  -- what it had used before.
  new_acl-persist :
      (disk : Disk) (content : Text)
      → disk.acl_file ≡ some content
      → let (_, _, disk') = persist json no_faults a disk in
        (b : Acl) × ((new_acl x json admin_key buf no_faults disk').0 ≡ ok b)
        × ((m : Key) × (lookup j b.keys ≡ some m))
        × (get_usage j b ≡ get_usage j a)
  unfolding persist
  new_acl-persist disk content there =
      let (_, _, disk') = persist json no_faults a disk in
      new_acl-written disk' (ground (arith, there))
