-- ===== src/Examples/Lists.antt =====
-- The theorems on runs of operations on the list of server/acl/acl.go, and on rounds of the loop
-- that persists it.
use toh.Base.{
  ◌↔◌, ◌⊎◌, subst, Holds, ◌≡◌, refl, Text-discrete, text, none, some, List, [], ◌∷◌, inl, ok, err,
  arith,
}
use toh.Api.{no_usage}
use toh.Base.Dict.{lookup}
use toh.Base.Words.{positive64}
use toh.Acl.State.{Acl, Key}
use toh.Acl.Access.{check}
use toh.Acl.Change.{get_usage, update_bytes_usage}
use toh.Acl.Isolation.{IsSound, Op, used, created, limited, usage_deleted, deleted, step}
use toh.Acl.Refinement.{User, users, run, effect, effects}
use toh.Acl.Refinement.Steps.{run_refines}
use toh.Acl.Refinement.Decisions.{IsAdmin, IsFair, IsAdmitted, check-run}
use toh.Acl.Storage.{Codec, Disk, Faults, no_faults, new_acl, persist, persist_round}
use toh.Acl.Storage.Restart.{written}
use toh.Acl.Storage.Durability.{
  Event, Stored, operated, persisted, event, events, restart_after_round,
}
use toh.Acl.Storage.Forgetting.{rounds, failed_round_forgets}
use toh.Examples.Keys.{two_users-IsSound}
use toh.Examples.Data.{external, alice_key, two_users, size_limit}

-- The first user uses up what may be received, gets a new limit and a new counter; the second one goes.
abbrev day : List Op
day =
    used (text "alice") 700 0
    ∷ limited (text "alice") (some (size_limit (text "1kB")))
    ∷ created (7 ∷ []) (text "carol")
    ∷ deleted (text "bob")
    ∷ usage_deleted (text "alice")
    ∷ []

run_refines_example :
    IsSound (run external day two_users)
    × (users (run external day two_users) ≡ effects external day (users two_users))
run_refines_example = run_refines external day two_users two_users-IsSound

-- What is left of the first user: a new counter, and the new total.
abbrev alice_then : User
alice_then = record {
  bytes_limit = 1000;
  in_bytes_limit = 0;
  out_bytes_limit = 300;
  whitelist = none;
  blacklist = none;
  usage = no_usage;
}

alice_left : effects external day (users two_users) (text "alice") ≡ some alice_then
unfolding effects effect users lookup Text-discrete
alice_left = refl

alice_then-IsFair : IsFair alice_then
alice_then-IsFair = record {
  words = record {
    bytes = omega arith;
    in_bytes = omega arith;
    out_bytes = omega arith;
    received = omega arith;
    sent = omega arith;
  };
  agrees = record { in_share = λ h. omega arith; out_share = λ h. omega arith };
  small = omega arith;
}

left-IsFair : (u : User) → effects external day (users two_users) (text "alice") ≡ some u → IsFair u
left-IsFair u there =
    let same_user : alice_then ≡ u = cc (alice_left, there) in
    subst IsFair same_user alice_then-IsFair

check-run_example :
    (check (run external day two_users) (text "alice") (text "tcp") (text "a.org") ≡ none) ↔ (
      IsAdmin (text "root") (text "alice")
      ⊎ Holds
          (IsAdmitted (text "tcp") (text "a.org"))
          (effects external day (users two_users) (text "alice")))
check-run_example =
    check-run external day two_users (text "alice") (text "tcp") (text "a.org") two_users-IsSound
      left-IsFair

abbrev busy_day : List Event
busy_day =
    operated (used (text "alice") 5 7)
    ∷ persisted
    ∷ operated (used (text "alice") 20 0)
    ∷ operated (used (text "bob") 1 1)
    ∷ []

abbrev disk : Disk
disk = record { acl_file = some (text "keys"); admin_key_file = none }

-- A codec that only writes.
abbrev write_only : Codec
write_only = record { encode = λ ks. text "keys"; decode = λ s. err (text "unknown") }

abbrev at_night : Stored
at_night = events external write_only busy_day (two_users, disk)

abbrev persisted_at_night : Stored
persisted_at_night = persist_round write_only no_faults at_night.0 at_night.1

-- A stand-in for the codec of the file that knows one list.
abbrev one_list : Codec
one_list = record { encode = λ ks. text "keys"; decode = λ s. ok (written persisted_at_night.0) }

alice_after : lookup (text "alice") persisted_at_night.0.keys ≡ some alice_key
unfolding lookup Text-discrete events event step persist_round persist update_bytes_usage positive64
alice_after = refl

restart_after_round_example :
    let (b, d) = events external one_list busy_day (two_users, disk) in
    let (b', d') = persist_round one_list no_faults b d in
    (b'.pending ≡ 0)
    × (b'.keys ≡ b.keys)
    × (b'.cells ≡ b.cells)
    × ((c : Acl) × ((new_acl external one_list (text "sixteen or longer") [] no_faults d').0 ≡ ok c)
        × ((m : Key) × (lookup (text "alice") c.keys ≡ some m))
        × (get_usage (text "alice") c ≡ get_usage (text "alice") b'))
unfolding lookup Text-discrete events event step persist_round persist update_bytes_usage positive64
restart_after_round_example =
    restart_after_round external one_list busy_day two_users disk (text "sixteen or longer") []
      (text "alice") alice_key refl refl (omega arith) refl refl alice_after (inl refl)

-- The file cannot be opened in one round, and can be in the next.
abbrev locked : Faults
locked = record no_faults { open_acl = some (text "permission denied") }

abbrev waiting : Acl
waiting = record two_users { pending = 3 }

failed_round_forgets_example :
    let s = rounds external one_list (locked ∷ no_faults ∷ []) (waiting, disk) in
    (s.0 ≡ record waiting { pending = 0 })
    × (s.1 ≡ disk)
    × (new_acl external one_list (text "sixteen or longer") [] no_faults s.1
        ≡ new_acl external one_list (text "sixteen or longer") [] no_faults disk)
unfolding positive64
failed_round_forgets_example =
    failed_round_forgets external one_list locked (no_faults ∷ []) waiting disk
      (text "sixteen or longer") [] refl (inl (text "permission denied", refl))
