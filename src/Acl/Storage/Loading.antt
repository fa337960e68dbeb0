-- ===== src/Acl/Storage/Loading.antt =====
-- What is in force after the list has been loaded, for server/acl/acl.go.
use toh.Base.{
  ℕ, ◌+◌, ◌≤◌, ◌<◌, Text, ◌≡◌, refl, ◌∙◌, ◌≢◌, Option, none, some, List, [], ◌∷◌, All, Option-cases,
  inl, inr, arith, Result, ok, err,
}
use toh.Base.Dict.{Dict, lookup, lookup-insert, lookup-nil}
use toh.Api.{BytesUsage, no_usage, Limit, ApiKey}
use toh.Acl.State.{Acl, Key, StoKey, External, write}
use toh.Acl.Change.{unlimited, apply_acl_key_limit}
use toh.Acl.Isolation.{IsSound, SameCounter, apply_counter}
use toh.Acl.Storage.{
  follow, storage, allocate, empty, apply_or_keep, load_at, load_key, load_keys, load,
}

-- A counter that has been decoded is not yet in use, and no other key that waits has it.
abbrev IsFresh : Dict Key → ℕ → List StoKey → Option ℕ → Type 0
IsFresh d n rest none = Unit
IsFresh d n rest (some q) =
    (q < n)
    × ((j : Text) (m : Key) → lookup j d ≡ some m → m.bytes_usage ≢ q)
    × All (λ k. k.bytes_usage ≢ some q) rest

abbrev IsReady : Dict Key → ℕ → List StoKey → Type 0
IsReady d n [] = Unit
IsReady d n (k ∷ rest) = IsFresh d n rest k.bytes_usage × IsReady d n rest

-- What `allocate` has given out lies between the two free addresses.
abbrev pub IsBetween : ℕ → ℕ → StoKey → Type 0
IsBetween n n' k = elim k.bytes_usage [ none ↦ Unit {0} | some q ↦ (n ≤ q) × (q < n') ]

All-map {ℓ} :
    {A : Type ℓ} (P Q : A → Type 0) → ((a : A) → P a → Q a) → (l : List A) → All P l → All Q l
All-map P Q f [] h = tt
All-map P Q f (a ∷ l) h = (f a h.0, All-map P Q f l h.1)

widen : (n n' : ℕ) (k : StoKey) → IsBetween (n + 1) n' k → IsBetween n n' k
widen n n' k h = ground arith

pub allocate-IsBetween :
    (ks : List ApiKey) (n : ℕ) (cells : ℕ → BytesUsage)
    → let (l, _, n') = allocate ks n cells in (n ≤ n') × All (IsBetween n n') l
unfolding allocate
allocate-IsBetween [] n cells = (omega arith, tt)
allocate-IsBetween (k ∷ ks) n cells = elim (Option-cases k.bytes_usage) [
  | inl absent ↦ let ih = allocate-IsBetween ks n cells in rw (absent, allocate) (ih.0, (tt, ih.1))
  | inr (u, present) ↦
      let rest = allocate ks (n + 1) (write cells n u) in
      let ih = allocate-IsBetween ks (n + 1) (write cells n u) in
      rw (present, allocate)
        (
          omega (arith, ih.0),
          (
            (omega arith, omega (arith, ih.0)),
            All-map (IsBetween (n + 1) rest.2) (IsBetween n rest.2) (widen n rest.2) rest.0 ih.1,
          ),
        )
]

above : (n n' : ℕ) (k : StoKey) → IsBetween (n + 1) n' k → k.bytes_usage ≢ some n
above n n' k h e = ground arith

-- The decoded counters are as they should be before the loop.
allocate-IsReady :
    (ks : List ApiKey) (n : ℕ) (cells : ℕ → BytesUsage)
    → let (l, _, n') = allocate ks n cells in IsReady [] n' l
unfolding allocate
allocate-IsReady [] n cells = tt
allocate-IsReady (k ∷ ks) n cells = elim (Option-cases k.bytes_usage) [
  | inl absent ↦ rw (absent, allocate) (tt, allocate-IsReady ks n cells)
  | inr (u, present) ↦
      let rest = allocate ks (n + 1) (write cells n u) in
      let between = allocate-IsBetween ks (n + 1) (write cells n u) in
      rw (present, allocate)
        (
          (
            omega (arith, between.0),
            (λ j m e. cc (lookup-nil {V = Key} j)),
            All-map (IsBetween (n + 1) rest.2) (λ k. k.bytes_usage ≢ some n) (above n rest.2) rest.0
                between.1,
          ),
          allocate-IsReady ks (n + 1) (write cells n u),
        )
]

-- Counters below the free addresses are left alone, and the others hold what was decoded.
pub allocate-cells :
    (ks : List ApiKey) (n : ℕ) (cells : ℕ → BytesUsage) (p : ℕ)
    → p < n
    → (allocate ks n cells).1 p ≡ cells p
unfolding allocate
allocate-cells [] n cells p h = refl
allocate-cells (k ∷ ks) n cells p h = elim (Option-cases k.bytes_usage) [
  | inl absent ↦ rw (absent, allocate) (allocate-cells ks n cells p h)
  | inr (u, present) ↦
      rw (present, allocate)
        (allocate-cells ks (n + 1) (write cells n u) p (omega arith) ∙ ground arith)
]

allocate-storage :
    (ks : List ApiKey) (n : ℕ) (cells : ℕ → BytesUsage)
    → let (l, cells', _) = allocate ks n cells in storage cells' l ≡ ks
unfolding allocate storage follow
allocate-storage [] n cells = refl
allocate-storage (k ∷ ks) n cells = elim (Option-cases k.bytes_usage) [
  | inl absent ↦ rw (absent, allocate) (cc (absent, allocate-storage ks n cells))
  | inr (u, present) ↦
      let cells' = write cells n u in
      rw (present, allocate)
        (ground
          (arith, present, allocate-storage ks (n + 1) cells', allocate-cells ks (n + 1) cells' n))
]

module _ (x : External) where
  abbrev pub in_force : ℕ → Option Limit → Key
  in_force p l = apply_or_keep x (apply_acl_key_limit x (unlimited p) l)

  kept :
      (p : ℕ) (r : Result (Text × Key) Key)
      → SameCounter x (unlimited p) r
      → (apply_or_keep x r).bytes_usage ≡ p
  kept p (ok k) h = h
  kept p (err (_, k)) h = h

  pub in_force-counter : (p : ℕ) (l : Option Limit) → (in_force p l).bytes_usage ≡ p
  in_force-counter p l =
      kept p (apply_acl_key_limit x (unlimited p) l) (apply_counter x (unlimited p) l)

  -- A counter that a key may get: not in use, and below the next free address afterwards.
  abbrev IsUsable : Acl → ℕ → Type 0
  IsUsable a p =
      (p < a.next + 1) × ((j : Text) (m : Key) → lookup j a.keys ≡ some m → m.bytes_usage ≢ p)

  load_at-IsSound :
      (p : ℕ) (k : StoKey) (a : Acl) → IsSound a → IsUsable a p → IsSound (load_at x p k a)
  unfolding load_at
  load_at-IsSound p k a h usable =
      let new = in_force p k.limit in
      let its = in_force-counter p k.limit in
      record {
        in_range =
            λ j m. ground (arith, its, usable.0, h.in_range j m, lookup-insert j k.key new a.keys);
        apart = λ i j m n. ground (
          arith,
          its,
          h.apart i j m n,
          usable.1 i m,
          usable.1 j n,
          lookup-insert i k.key new a.keys,
          lookup-insert j k.key new a.keys,
        );
      }

  load_at-IsFresh :
      (p : ℕ) (k : StoKey) (a : Acl) (rest : List StoKey) (o : Option ℕ)
      → o ≢ some p
      → IsFresh a.keys a.next rest o
      → IsFresh (load_at x p k a).keys (load_at x p k a).next rest o
  unfolding load_at
  load_at-IsFresh p k a rest none ne fresh = tt
  load_at-IsFresh p k a rest (some q) ne fresh =
      let new = in_force p k.limit in
      let its = in_force-counter p k.limit in
      (
        omega (arith, fresh.0),
        (λ j m. ground (arith, its, ne, fresh.1 j m, lookup-insert j k.key new a.keys)),
        fresh.2,
      )

  load_at-IsReady :
      (p : ℕ) (k : StoKey) (a : Acl) (rest : List StoKey)
      → All (λ r. r.bytes_usage ≢ some p) rest
      → IsReady a.keys a.next rest
      → IsReady (load_at x p k a).keys (load_at x p k a).next rest
  load_at-IsReady p k a [] apart ready = tt
  load_at-IsReady p k a (r ∷ rest) apart ready = (
    load_at-IsFresh p k a rest r.bytes_usage apart.0 ready.0,
    load_at-IsReady p k a rest apart.1 ready.1,
  )

  IsFresh-ne :
      (d : Dict Key) (n : ℕ) (rest : List StoKey) (o : Option ℕ) → IsFresh d n rest o → o ≢ some n
  IsFresh-ne d n rest none h e = cc
  IsFresh-ne d n rest (some q) h e = ground arith

  IsReady-ne :
      (d : Dict Key) (n : ℕ) (rest : List StoKey)
      → IsReady d n rest
      → All (λ r. r.bytes_usage ≢ some n) rest
  IsReady-ne d n [] h = tt
  IsReady-ne d n (r ∷ rest) h = (IsFresh-ne d n rest r.bytes_usage h.0, IsReady-ne d n rest h.1)

  -- Which counter a key gets, and that it may.
  chosen :
      (k : StoKey) (rest : List StoKey) (a : Acl)
      → IsSound a
      → IsReady a.keys a.next (k ∷ rest)
      → (p : ℕ) × (load_key x k a ≡ load_at x p k a)
        × IsUsable a p
        × All (λ r. r.bytes_usage ≢ some p) rest
  unfolding load_key
  chosen k rest a h ready = elim (Option-cases k.bytes_usage) [
    | inl absent ↦ (
      a.next,
      rw (absent, load_key),
      (omega arith, λ j m e. ground (arith, h.in_range j m)),
      IsReady-ne a.keys a.next rest ready.1,
    )
    | inr (q, present) ↦
        let fresh : IsFresh a.keys a.next rest (some q) = rw present at ready.0 in
        (q, rw (present, load_key), (omega (arith, fresh.0), fresh.1), fresh.2)
  ]

  load_keys-IsSound :
      (l : List StoKey) (a : Acl) → IsSound a → IsReady a.keys a.next l → IsSound (load_keys x l a)
  unfolding load_keys
  load_keys-IsSound [] a h ready = h
  load_keys-IsSound (k ∷ l) a h ready =
      let (p, here, usable, apart) = chosen k l a h ready in
      rw here (
        load_keys-IsSound l (load_at x p k a) (load_at-IsSound p k a h usable)
          (load_at-IsReady p k a l apart ready.1))

  -- After the list has been loaded no two live keys share a counter, and no counter lies among the free
  -- addresses, whatever keys the file holds.
  pub load-IsSound : (admin_key : Text) (ks : List ApiKey) → IsSound (load x admin_key ks)
  unfolding load
  load-IsSound admin_key ks =
      let (l, cells, next) = allocate ks 0 (λ _. no_usage) in
      load_keys-IsSound l (record (empty admin_key) { sto_keys = l; cells = cells; next = next })
        (record {
          in_range = λ j k e. cc (lookup-nil {V = Key} j);
          apart = λ i j k m e. cc (lookup-nil {V = Key} i);
        })
        (allocate-IsReady ks 0 (λ _. no_usage))
