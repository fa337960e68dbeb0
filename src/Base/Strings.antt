-- ===== src/Base/Strings.antt =====
-- What the program uses of Go's package strings: TrimSpace, Split, Contains and ToLower, over bytes.
pub mod Splitting
use mathlib.Core.List.{reverse}
use toh.Base.{
  ℕ, zero, suc, Text, text, Text-discrete, same, ◌≡◌, refl, Bool, true, false, ◌||◌, ◌&&◌, ◌+◌, leb,
  map, Option, none, some, List, [], ◌∷◌, length, drop, ◌==◌, if◌then◌else◌,
}

-- `strings.ToLower`, for a text of ASCII bytes.
abbrev pub to_lower : Text → Text
to_lower = map (λ c. if leb 65 c && leb c 90 then c + 32 else c)

-- `strip_prefix p s`: what follows `p` in `s`.
unfoldable pub strip_prefix : Text → Text → Option Text
strip_prefix [] s = some s
strip_prefix (b ∷ p) [] = none
strip_prefix (b ∷ p) (c ∷ s) = if b == c then strip_prefix p s else none

-- The UTF-8 encodings of the characters that `unicode.IsSpace` accepts.
abbrev spaces : List Text
spaces =
    (0x09 ∷ [])
    ∷ (0x0a ∷ [])
    ∷ (0x0b ∷ [])
    ∷ (0x0c ∷ [])
    ∷ (0x0d ∷ [])
    ∷ (0x20 ∷ [])
    ∷ (0xc2 ∷ 0x85 ∷ [])
    ∷ (0xc2 ∷ 0xa0 ∷ [])
    ∷ (0xe1 ∷ 0x9a ∷ 0x80 ∷ [])
    ∷ (0xe2 ∷ 0x80 ∷ 0x80 ∷ [])
    ∷ (0xe2 ∷ 0x80 ∷ 0x81 ∷ [])
    ∷ (0xe2 ∷ 0x80 ∷ 0x82 ∷ [])
    ∷ (0xe2 ∷ 0x80 ∷ 0x83 ∷ [])
    ∷ (0xe2 ∷ 0x80 ∷ 0x84 ∷ [])
    ∷ (0xe2 ∷ 0x80 ∷ 0x85 ∷ [])
    ∷ (0xe2 ∷ 0x80 ∷ 0x86 ∷ [])
    ∷ (0xe2 ∷ 0x80 ∷ 0x87 ∷ [])
    ∷ (0xe2 ∷ 0x80 ∷ 0x88 ∷ [])
    ∷ (0xe2 ∷ 0x80 ∷ 0x89 ∷ [])
    ∷ (0xe2 ∷ 0x80 ∷ 0x8a ∷ [])
    ∷ (0xe2 ∷ 0x80 ∷ 0xa8 ∷ [])
    ∷ (0xe2 ∷ 0x80 ∷ 0xa9 ∷ [])
    ∷ (0xe2 ∷ 0x80 ∷ 0xaf ∷ [])
    ∷ (0xe2 ∷ 0x81 ∷ 0x9f ∷ [])
    ∷ (0xe3 ∷ 0x80 ∷ 0x80 ∷ [])
    ∷ []

-- `s` without the first of the encodings that it begins with.
strip_any : List Text → Text → Option Text
unfolding strip_prefix
strip_any [] s = none
strip_any (p ∷ ps) s = elim (strip_prefix p s) [ some rest ↦ some rest | none ↦ strip_any ps s ]

-- Each round removes at least one byte, so the length is fuel enough.
trim_front : ℕ → List Text → Text → Text
unfolding strip_any
trim_front zero ps s = s
trim_front (suc fuel) ps s = elim (strip_any ps s) [
  | some rest ↦ trim_front fuel ps rest
  | none ↦ s
]

reverse_all : List Text → List Text
reverse_all [] = []
reverse_all (p ∷ ps) = reverse p ∷ reverse_all ps

-- `strings.TrimSpace`. A trailing character is a prefix of the reversed text: UTF-8 tells a first
-- byte from the others, so no other way of reading the end is possible.
unfoldable pub trim_space : Text → Text
unfolding trim_front reverse_all
trim_space s =
    let front = trim_front (length s) spaces s in
    reverse (trim_front (length front) (reverse_all spaces) (reverse front))

-- One more byte at the front of the first piece.
abbrev pub attach : ℕ → List Text → List Text
attach c [] = (c ∷ []) ∷ []
attach c (p ∷ ps) = (c ∷ p) ∷ ps

-- `strings.Split(s, sep)` for a separator of one byte: never empty.
unfoldable pub split : ℕ → Text → List Text
split sep [] = [] ∷ []
split sep (c ∷ s) = let rest = split sep s in if c == sep then [] ∷ rest else attach c rest

-- `strings.Contains(s, t)`
unfoldable pub contains : Text → Text → Bool
unfolding strip_prefix
contains [] t = elim (strip_prefix t []) [ some _ ↦ true | none ↦ false ]
contains (c ∷ s) t = elim (strip_prefix t (c ∷ s)) [ some _ ↦ true | none ↦ contains s t ]

trim : trim_space (text "  a b ") ≡ text "a b"
unfolding trim_space
trim = refl

parts : split b'/' (text "a:1/tcp") ≡ text "a:1" ∷ text "tcp" ∷ []
unfolding split
parts = refl

found : contains (text "code 1000") (text "1000") ≡ true
unfolding contains
found = refl
