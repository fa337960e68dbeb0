-- ===== src/Acl/Storage/Forgetting.antt =====
-- What becomes of the updates that the loop of server/acl/acl.go fails to persist.
use toh.Base.{
  Text, ◌≡◌, refl, ap, ◌∙◌, ◌⊎◌, true, false, Option-cases, none, some, inl, inr, List, [], ◌∷◌,
  arith,
}
use toh.Base.Words.{positive64}
use toh.Acl.State.{Acl, External}
use toh.Acl.Storage.{Codec, Disk, Faults, no_faults, persist, persist_round, new_acl}
use toh.Acl.Storage.Durability.{Stored, round_idle}

module _ (x : External) (json : Codec) where
  -- The loop that persists, with what fails in each of its rounds, and no operation between them.
  unfoldable pub rounds : List Faults → Stored → Stored
  rounds [] s = s
  rounds (faults ∷ more) (a, disk) = rounds more (persist_round json faults a disk)

  -- The file cannot be opened, is not there, or cannot be cut to the beginning.
  abbrev pub CannotWrite : Faults → Disk → Type 0
  CannotWrite faults disk =
      ((e : Text) × (faults.open_acl ≡ some e))
      ⊎ ((disk.acl_file ≡ none) ⊎ ((e : Text) × (faults.truncate_acl ≡ some e)))

  failed_round :
      (faults : Faults) (a : Acl) (disk : Disk)
      → positive64 a.pending ≡ true
      → CannotWrite faults disk
      → persist_round json faults a disk ≡ (record a { pending = 0 }, disk)
  unfolding persist_round persist
  failed_round faults a disk busy (inl (e, failed)) = ground (arith, busy, failed)
  failed_round faults a disk busy (inr (inl gone)) = elim (Option-cases faults.open_acl) [
    | inl opens ↦ ground (arith, busy, gone, opens)
    | inr (e, failed) ↦ ground (arith, busy, failed)
  ]
  failed_round faults a disk busy (inr (inr (e, failed))) = elim (Option-cases faults.open_acl) [
    | inr (e', shut) ↦ ground (arith, busy, shut)
    | inl opens ↦ elim (Option-cases disk.acl_file) [
      | inl gone ↦ ground (arith, busy, gone, opens)
      | inr (content, there) ↦ ground (arith, busy, there, opens, failed)
    ]
  ]

  idle_rounds :
      (more : List Faults) (a : Acl) (disk : Disk)
      → positive64 a.pending ≡ false
      → rounds more (a, disk) ≡ (a, disk)
  unfolding rounds
  idle_rounds [] a disk idle = refl
  idle_rounds (faults ∷ more) a disk idle =
      ap (rounds more) (round_idle x json a disk faults idle) ∙ idle_rounds more a disk idle

  -- Where updates are pending, and a round of the loop cannot open the file, does not find it, or
  -- cannot cut it: after that round and any further rounds with no operation between them, whether
  -- system calls fail in those or not, the files are as they were, the list says that nothing is
  -- pending and is as it was otherwise, and so a restart gives what it would have given before any of
  -- the rounds.
  pub failed_round_forgets :
      (faults : Faults) (more : List Faults) (a : Acl) (disk : Disk) (admin_key buf : Text)
      → positive64 a.pending ≡ true
      → CannotWrite faults disk
      → let s = rounds (faults ∷ more) (a, disk) in
        (s.0 ≡ record a { pending = 0 })
        × (s.1 ≡ disk)
        × (new_acl x json admin_key buf no_faults s.1 ≡ new_acl x json admin_key buf no_faults disk)
  unfolding rounds positive64
  failed_round_forgets faults more a disk admin_key buf busy failed =
      let lost : rounds (faults ∷ more) (a, disk) ≡ (record a { pending = 0 }, disk) =
        ap (rounds more) (failed_round faults a disk busy failed)
        ∙ idle_rounds more (record a { pending = 0 }) disk refl in
      (
        ap (λ (s : Stored). s.0) lost,
        ap (λ (s : Stored). s.1) lost,
        ap (λ (s : Stored). new_acl x json admin_key buf no_faults s.1) lost,
      )
