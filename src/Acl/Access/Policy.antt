-- ===== src/Acl/Access/Policy.antt =====
-- What the checks of server/acl/acl.go decide, in terms of the entries of the lists.
use toh.Base.{
  Text, sym, ap, ◌∙◌, ◌≡◌, ◌↔◌, ◌⊎◌, inl, inr, Option-cases, Holds, Option, none, some, true, false,
  List, [], ◌∷◌, ◌++◌, All, Any, arith,
}
use toh.Base.Dict.{lookup}
use toh.Base.Strings.{split, trim_space}
use toh.Base.Strings.Splitting.{Free, join, join-split, split-Free, split-append, split-All}
use toh.Acl.State.{Acl, Key, invalid_key, in_data_limited, out_data_limited, service_access_denied}
use toh.Acl.Access.{
  is_admin_access, check_usage, check_key, to_match, entry_matches, any_matches, check_lists, check,
}

-- An entry names an address, for every network or for one: the trimmed entry is the address, or
-- the address, a slash and the network. An address or network with a slash in it is never named.
abbrev pub Names : Text → Text → Text → Type 0
Names network addr entry =
    Free b'/' addr
    × ((trim_space entry ≡ addr)
        ⊎ (Free b'/' network × (trim_space entry ≡ addr ++ b'/' ∷ network)))

to_match_iff :
    (network addr : Text) (ps : List Text)
    → (to_match network addr ps ≡ true) ↔ ((ps ≡ addr ∷ []) ⊎ (ps ≡ addr ∷ network ∷ []))
unfolding to_match
to_match_iff network addr [] = ground arith
to_match_iff network addr (h ∷ []) = ground arith
to_match_iff network addr (h ∷ n ∷ []) = ground arith
to_match_iff network addr (h ∷ n ∷ p ∷ ps) = ground arith

one_piece : (s addr : Text) → (split b'/' s ≡ addr ∷ []) ↔ (Free b'/' addr × (s ≡ addr))
unfolding join
one_piece s addr = (
  λ e.
      let pieces : All (Free b'/') (addr ∷ []) = rw e at (split-All b'/' s) in
      (pieces.0, sym (join-split b'/' s) ∙ ap (join b'/') e),
  λ h. rw h.1 (split-Free b'/' addr h.0),
)

two_pieces :
    (s addr network : Text)
    → (split b'/' s ≡ addr ∷ network ∷ [])
      ↔ (Free b'/' addr × Free b'/' network × (s ≡ addr ++ b'/' ∷ network))
unfolding join
two_pieces s addr network = (
  λ e.
      let pieces : All (Free b'/') (addr ∷ network ∷ []) = rw e at (split-All b'/' s) in
      (pieces.0, pieces.1.0, sym (join-split b'/' s) ∙ ap (join b'/') e),
  λ h.
      rw h.2
        (split-append b'/' addr network h.0 ∙ ap (λ ps. addr ∷ ps) (split-Free b'/' network h.1)),
)

entry_matches_iff :
    (network addr entry : Text)
    → (entry_matches network addr entry ≡ true) ↔ Names network addr entry
unfolding entry_matches
entry_matches_iff network addr entry = ground (
  arith,
  to_match_iff network addr (split b'/' (trim_space entry)),
  one_piece (trim_space entry) addr,
  two_pieces (trim_space entry) addr network,
)

-- Some entry of the list names the address.
abbrev pub Listed : Text → Text → List Text → Type 0
Listed network addr = Any (Names network addr)

any_matches_iff :
    (network addr : Text) (es : List Text)
    → (any_matches network addr es ≡ true) ↔ Listed network addr es
unfolding any_matches
any_matches_iff network addr [] = ground arith
any_matches_iff network addr (e ∷ es) =
    ground (arith, entry_matches_iff network addr e, any_matches_iff network addr es)

-- A whitelist permits what it lists. Without one, a blacklist permits what it does not list, and
-- without either everything is permitted.
abbrev pub Permits : Option (List Text) → Option (List Text) → Text → Text → Type 0
Permits (some white) black network addr = Listed network addr white
Permits none (some black) network addr = ¬ Listed network addr black
Permits none none network addr = Unit

check_lists_iff :
    (white black : Option (List Text)) (network addr : Text)
    → (check_lists white black network addr ≡ none) ↔ Permits white black network addr
unfolding check_lists
check_lists_iff (some white) black network addr = ground (arith, any_matches_iff network addr white)
check_lists_iff none (some black) network addr = ground (arith, any_matches_iff network addr black)
check_lists_iff none none network addr = ground arith

check_lists_denies :
    (white black : Option (List Text)) (network addr : Text)
    → (check_lists white black network addr ≡ none)
      ⊎ (check_lists white black network addr ≡ some service_access_denied)
unfolding check_lists
check_lists_denies (some white) black network addr = ground arith
check_lists_denies none (some black) network addr = ground arith
check_lists_denies none none network addr = ground arith

-- The key has not used up its limits.
abbrev pub IsUsable : Acl → Key → Type 0
IsUsable a k = check_usage k (a.cells k.bytes_usage) ≡ none

-- `CheckKey` passes exactly the admin key and the keys in the map that are within their limits.
check_key_iff :
    (a : Acl) (key : Text)
    → (check_key a key ≡ none)
      ↔ ((is_admin_access a key ≡ true) ⊎ Holds (IsUsable a) (lookup key a.keys))
unfolding check_key
check_key_iff a key = ground arith

-- The key is within its limits, and its lists permit the network and address.
abbrev pub IsPermitted : Acl → Text → Text → Key → Type 0
IsPermitted a network addr k = IsUsable a k × Permits k.whitelist k.blacklist network addr

-- `Check` passes exactly the admin key, for any address, and the keys within their limits whose
-- lists permit the network and address.
pub check_iff :
    (a : Acl) (key network addr : Text)
    → (check a key network addr ≡ none)
      ↔ ((is_admin_access a key ≡ true) ⊎ Holds (IsPermitted a network addr) (lookup key a.keys))
unfolding check check_key
check_iff a key network addr = elim (Option-cases (lookup key a.keys)) [
  | inl missing ↦ rw missing (ground arith)
  | inr (k, found) ↦ rw found (ground (arith, check_lists_iff k.whitelist k.blacklist network addr))
]

-- The key is within its limits, and its lists do not permit the network and address.
abbrev pub IsForbidden : Acl → Text → Text → Key → Type 0
IsForbidden a network addr k = IsUsable a k × ¬ Permits k.whitelist k.blacklist network addr

-- For a key other than the admin's, `Check` says that the key is invalid exactly if it is not in
-- the map, that access is denied exactly if the key is within its limits and its lists do not
-- permit the network and address, and that a limit is reached exactly if `CheckKey` does.
pub check_errors :
    (a : Acl) (key network addr : Text)
    → is_admin_access a key ≡ false
    → ((check a key network addr ≡ some invalid_key) ↔ (lookup key a.keys ≡ none))
      × ((check a key network addr ≡ some service_access_denied)
          ↔ Holds (IsForbidden a network addr) (lookup key a.keys))
      × ((check a key network addr ≡ some in_data_limited)
          ↔ (check_key a key ≡ some in_data_limited))
      × ((check a key network addr ≡ some out_data_limited)
          ↔ (check_key a key ≡ some out_data_limited))
unfolding check check_key check_usage
check_errors a key network addr other = elim (Option-cases (lookup key a.keys)) [
  | inl missing ↦ rw missing (ground arith)
  | inr (k, found) ↦ rw found (
      ground (
        arith,
        check_lists_iff k.whitelist k.blacklist network addr,
        check_lists_denies k.whitelist k.blacklist network addr,
      ))
]
