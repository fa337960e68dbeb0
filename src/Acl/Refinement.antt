-- ===== src/Acl/Refinement.antt =====
-- The list of server/acl/acl.go as a client of it sees it: who may use the server, with which
-- limits, and what each has used. The map, the heap of counters and the list to store are not to be
-- seen.
pub mod Steps
pub mod Decisions
use toh.Base.{
  ℕ, Text, same, Bool, true, false, ◌&&◌, not, Option, none, some, List, [], ◌∷◌, if◌then◌else◌,
  Result, ok, err,
}
use toh.Base.Dict.{lookup}
use toh.Base.Words.{add64}
use toh.Api.{BytesUsage, no_usage, Limit}
use toh.Acl.State.{Acl, Key, External, AclError, invalid_key}
use toh.Acl.Access.{check_usage, check_lists, check}
use toh.Acl.Isolation.{Op, used, created, deleted, limited, usage_deleted, step}

pub record User : Type 0 where
  pub bytes_limit : ℕ
  pub in_bytes_limit : ℕ
  pub out_bytes_limit : ℕ
  pub whitelist : Option (List Text)
  pub blacklist : Option (List Text)
  pub usage : BytesUsage

abbrev pub Users : Type 0
Users = Text → Option User

abbrev pub as_user : Key → BytesUsage → User
as_user k u = record {
  bytes_limit = k.bytes_limit;
  in_bytes_limit = k.in_bytes_limit;
  out_bytes_limit = k.out_bytes_limit;
  whitelist = k.whitelist;
  blacklist = k.blacklist;
  usage = u;
}

-- What the list looks like from outside.
unfoldable pub users : Acl → Users
users a j = elim (lookup j a.keys) [
  | none ↦ none
  | some k ↦ some (as_user k (a.cells k.bytes_usage))
]

-- One user becomes another, or comes, or goes.
abbrev pub assign : Text → Option User → Users → Users
assign key o us j = if same key j then o else us j

-- A user that is there changes.
abbrev pub change : Text → (User → User) → Users → Users
change key f us = elim (us key) [ none ↦ us | some u ↦ assign key (some (f u)) us ]

abbrev pub charged : ℕ → ℕ → User → User
charged received sent u = record u {
  usage = record {
    in_bytes = add64 u.usage.in_bytes received;
    out_bytes = add64 u.usage.out_bytes sent;
  };
}

abbrev pub newcomer : User
newcomer = record {
  bytes_limit = 0;
  in_bytes_limit = 0;
  out_bytes_limit = 0;
  whitelist = none;
  blacklist = none;
  usage = no_usage;
}

module _ (x : External) where
  -- A size of a limit: empty, it leaves the old one; `none` is a text that is no size.
  abbrev pub size : Text → ℕ → Option ℕ
  size s old =
      if same s [] then some old else elim (x.parse_bytes s) [ ok b ↦ some b | err e ↦ none ]

  -- The sizes are taken one after the other, up to the first that is none; the lists are taken if
  -- all are.
  abbrev pub restricted : Limit → User → User
  restricted l u = elim (size l.bytes u.bytes_limit) [
    | none ↦ u
    | some b ↦ elim (size l.in_bytes u.in_bytes_limit) [
      | none ↦ record u { bytes_limit = b }
      | some i ↦ elim (size l.out_bytes u.out_bytes_limit) [
        | none ↦ record u { bytes_limit = b; in_bytes_limit = i }
        | some o ↦ record {
          bytes_limit = b;
          in_bytes_limit = i;
          out_bytes_limit = o;
          whitelist = l.whitelist;
          blacklist = l.blacklist;
          usage = u.usage;
        }
      ]
    ]
  ]

  abbrev pub restricted_or_kept : Option Limit → User → User
  restricted_or_kept none u = u
  restricted_or_kept (some l) u = restricted l u

  -- What each operation means.
  unfoldable pub effect : Op → Users → Users
  effect (used key received sent) us = change key (charged received sent) us
  effect (created buf name) us = assign (x.check_encode buf (1 ∷ 0 ∷ [])) (some newcomer) us
  effect (deleted key) us = assign key none us
  effect (limited key l) us = change key (restricted_or_kept l) us
  effect (usage_deleted key) us = change key (λ u. record u { usage = no_usage }) us

-- A user as the checks want it; they do not look at where the counter is.
abbrev pub as_key : User → Key
as_key u = record {
  bytes_limit = u.bytes_limit;
  in_bytes_limit = u.in_bytes_limit;
  out_bytes_limit = u.out_bytes_limit;
  bytes_usage = 0;
  whitelist = u.whitelist;
  blacklist = u.blacklist;
}

-- Runs of operations, on the list and on what is seen of it.
unfoldable pub run : External → List Op → Acl → Acl
run x [] a = a
run x (op ∷ ops) a = run x ops (step x op a)

unfoldable pub effects : External → List Op → Users → Users
effects x [] us = us
effects x (op ∷ ops) us = effects x ops (effect x op us)
