-- ===== src/Base/HostPort.antt =====
-- `net.SplitHostPort` of Go's package net.
use toh.Base.{
  ℕ, suc, ◌+◌, Text, text, ◌≡◌, refl, Bool, true, false, Option, none, some, [], ◌∷◌, length, take,
  drop, get_or, ◌==◌, if◌then◌else◌, Result, ok, err,
}

abbrev plus_one : Option ℕ → Option ℕ
plus_one none = none
plus_one (some i) = some (suc i)

-- The first and the last index of a byte.
unfoldable pub index : ℕ → Text → Option ℕ
index b [] = none
index b (c ∷ s) = let rest = index b s in if c == b then some 0 else plus_one rest

unfoldable pub last_index : ℕ → Text → Option ℕ
last_index b [] = none
last_index b (c ∷ s) = elim (last_index b s) [
  | some i ↦ some (suc i)
  | none ↦ if c == b then some 0 else none
]

abbrev pub has : ℕ → Text → Bool
has b s = elim (index b s) [ some _ ↦ true | none ↦ false ]

-- `net.SplitHostPort`: its end, with the host, where the brackets may not stand, and the last colon.
unfoldable pub split_at : Text → Text → ℕ → ℕ → ℕ → Result Text (Text × Text)
unfolding index
split_at s host j k i =
    if has b'[' (drop j s)
    then err (text "unexpected '[' in address")
    else if has b']' (drop k s)
    then err (text "unexpected ']' in address")
    else ok (host, drop (i + 1) s)

unfoldable pub split_bracketed : Text → ℕ → ℕ → Result Text (Text × Text)
unfolding split_at
split_bracketed s i end =
    if end + 1 == length s
    then err (text "missing port in address")
    else if end + 1 == i
    then split_at s (drop 1 (take end s)) 1 (end + 1) i
    else if get_or s (end + 1) 0 == b':'
    then err (text "too many colons in address")
    else err (text "missing port in address")

unfoldable pub split_host_port : Text → Result Text (Text × Text)
unfolding last_index index split_bracketed
split_host_port s = elim (last_index b':' s) [
  | none ↦ err (text "missing port in address")
  | some i ↦
      if get_or s 0 0 == b'['
      then (elim (index b']' s) [
        | none ↦ err (text "missing ']' in address")
        | some end ↦ split_bracketed s i end
      ])
      else if has b':' (take i s)
      then err (text "too many colons in address")
      else split_at s (take i s) 0 0 i
]

with_brackets : split_host_port (text "[::1]:80") ≡ ok (text "::1", text "80")
unfolding split_host_port split_at
with_brackets = refl

two_colons : split_host_port (text "a:b:80") ≡ err (text "too many colons in address")
unfolding split_host_port
two_colons = refl
