-- ===== src/Acl/Storage.antt =====
-- Loading the list at the start, and writing it back (server/acl/acl.go).
pub mod Loading
pub mod Restart
pub mod Durability
pub mod Forgetting
use toh.Base.{
  ℕ, ◌+◌, Text, text, Bool, true, false, ◌&&◌, Option, none, some, List, [], ◌∷◌, ◌++◌, length, ltb,
  if◌then◌else◌, Result, ok, err,
}
use toh.Base.Dict.{lookup, insert}
use toh.Base.Words.{positive64}
use toh.Api.{BytesUsage, no_usage, ApiKey}
use toh.Acl.State.{Acl, Key, StoKey, External, AclError, short_admin_key, outside, acl_file, write}
use toh.Acl.Change.{unlimited, apply_acl_key_limit}

-- The JSON form of the stored keys: `json.Encoder` and `json.Decoder` on an `ACLStorage`.
pub record Codec : Type 0 where
  pub encode : List ApiKey → Text
  pub decode : Text → Result Text (List ApiKey)

-- The two files, `none` where there is none.
pub record Disk : Type 0 where
  pub acl_file : Option Text
  pub admin_key_file : Option Text

-- The errors of the system calls, where they fail for a reason that the files do not show.
pub record Faults : Type 0 where
  pub create_admin_key : Option Text
  pub open_acl : Option Text
  pub create_acl : Option Text
  pub truncate_acl : Option Text

abbrev pub no_faults : Faults
no_faults = record {
  create_admin_key = none;
  open_acl = none;
  create_acl = none;
  truncate_acl = none;
}

-- `Storage()` with the pointers followed, as an encoder sees it.
unfoldable pub follow : (ℕ → BytesUsage) → Option ℕ → Option BytesUsage
follow cells none = none
follow cells (some p) = some (cells p)

unfoldable pub storage : (ℕ → BytesUsage) → List StoKey → List ApiKey
unfolding follow
storage cells [] = []
storage cells (k ∷ rest) =
    record { name = k.name; key = k.key; limit = k.limit; bytes_usage = follow cells k.bytes_usage }
    ∷ storage cells rest

-- What the decoder builds: each key that has a usage gets a cell of its own, from `next` on.
unfoldable pub allocate : List ApiKey → ℕ → (ℕ → BytesUsage) → List StoKey × (ℕ → BytesUsage) × ℕ
allocate [] next cells = ([], cells, next)
allocate (k ∷ rest) next cells = elim k.bytes_usage [
  | none ↦
      let (l, cells', next') = allocate rest next cells in
      (
        record { name = k.name; key = k.key; limit = k.limit; bytes_usage = none } ∷ l,
        cells',
        next',
      )
  | some u ↦
      let (l, cells', next') = allocate rest (next + 1) (write cells next u) in
      (
        record { name = k.name; key = k.key; limit = k.limit; bytes_usage = some next } ∷ l,
        cells',
        next',
      )
]

abbrev pub empty : Text → Acl
empty admin_key = record {
  admin_key = admin_key;
  keys = [];
  sto_keys = [];
  cells = λ _. no_usage;
  next = 0;
  pending = 0;
}

module _ (x : External) where
  -- `applyACLKeyLimit` with its error dropped.
  abbrev pub apply_or_keep : Result (Text × Key) Key → Key
  apply_or_keep (ok k) = k
  apply_or_keep (err (_, k)) = k

  -- One round of the loop of `NewACL`, once the counter is known: a new one, at `a.next`, or the one
  -- that has been decoded.
  unfoldable pub load_at : ℕ → StoKey → Acl → Acl
  load_at p k a = record a {
    keys = insert k.key (apply_or_keep (apply_acl_key_limit x (unlimited p) k.limit)) a.keys;
    cells = write a.cells a.next no_usage;
    next = a.next + 1;
  }

  unfoldable pub load_key : StoKey → Acl → Acl
  load_key k a = load_at (elim k.bytes_usage [ none ↦ a.next | some q ↦ q ]) k a

  unfoldable pub load_keys : List StoKey → Acl → Acl
  load_keys [] a = a
  load_keys (k ∷ rest) a = load_keys rest (load_key k a)

  -- From the decoded keys on.
  unfoldable pub load : Text → List ApiKey → Acl
  load admin_key ks =
      let (l, cells, next) = allocate ks 0 (λ _. no_usage) in
      load_keys l (record (empty admin_key) { sto_keys = l; cells = cells; next = next })

  module _ (json : Codec) where
    -- `acl.json` when it is written for the first time.
    unfoldable pub first_storage : Text → List ApiKey
    first_storage buf =
        record {
          name = text "default";
          key = x.check_encode buf (0 ∷ 0 ∷ []);
          limit = none;
          bytes_usage = none;
        }
        ∷ []

    unfoldable pub open_acl : Text → Text → Faults → Disk → Result AclError Acl × Disk
    unfolding first_storage load
    open_acl admin_key buf faults disk = elim faults.open_acl [
      | some e ↦ (err (outside e), disk)
      | none ↦ elim disk.acl_file [
        | some content ↦ elim (json.decode content) [
          | err e ↦ (err (acl_file e), disk)
          | ok ks ↦ (ok (load admin_key ks), disk)
        ]
        | none ↦ elim faults.create_acl [
          | some e ↦ (err (outside e), disk)
          | none ↦ (
            ok (load admin_key (first_storage buf)),
            record disk { acl_file = some (json.encode (first_storage buf)) },
          )
        ]
      ]
    ]

    unfoldable pub new_acl : Text → Text → Faults → Disk → Result AclError Acl × Disk
    unfolding open_acl
    new_acl admin_key buf faults disk =
        if ltb 0 (length admin_key) && ltb (length admin_key) 16
        then (err short_admin_key, disk)
        else if ltb 0 (length admin_key)
        then elim faults.create_admin_key [
          | some e ↦ (err (outside e), disk)
          | none ↦ open_acl admin_key buf faults (record disk { admin_key_file = some admin_key })
        ]
        else open_acl admin_key buf faults disk

-- `Shutdown`
unfoldable pub shutdown : Disk → Disk
shutdown disk = record disk { admin_key_file = none }

-- The loop of `persist`: a stored key takes the counter of the live one.
unfoldable pub take_usage : Acl → List StoKey → List StoKey
take_usage a [] = []
take_usage a (k ∷ rest) =
    (elim (lookup k.key a.keys) [
      | some ke ↦ record k { bytes_usage = some ke.bytes_usage }
      | none ↦ k
    ])
    ∷ take_usage a rest

unfoldable pub persist : Codec → Faults → Acl → Disk → Option Text × Acl × Disk
unfolding take_usage storage
persist json faults a disk = elim faults.open_acl [
  | some e ↦ (some e, a, disk)
  | none ↦ elim disk.acl_file [
    | none ↦ (some (text "no such file or directory"), a, disk)
    | some _ ↦ elim faults.truncate_acl [
      | some e ↦ (some e, a, disk)
      | none ↦ (
        none,
        record a { sto_keys = take_usage a a.sto_keys },
        record disk { acl_file = some (json.encode (storage a.cells (take_usage a a.sto_keys))) },
      )
    ]
  ]
]

-- One round of `aclPersistLoop`; the error is only logged.
unfoldable pub persist_round : Codec → Faults → Acl → Disk → Acl × Disk
unfolding persist positive64
persist_round json faults a disk =
    if positive64 a.pending
    then (let (_, a', disk') = persist json faults (record a { pending = 0 }) disk in (a', disk'))
    else (a, disk)
