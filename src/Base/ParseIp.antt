-- ===== src/Base/ParseIp.antt =====
-- `net.ParseIP` of Go's package net: an address in one of its texts, as sixteen bytes.
use toh.Base.{
  ℕ, zero, suc, ◌+◌, ◌-◌, ◌*◌, ◌/◌, ◌%◌, Text, text, ◌≡◌, refl, Bool, true, false, ◌&&◌, ◌||◌, not,
  Option, none, some, List, [], ◌∷◌, ◌++◌, length, get_or, take, drop, replicate, ltb, leb, ◌==◌,
  if◌then◌else◌,
}
use toh.Base.Strings.{split, strip_prefix}
use toh.Base.Net.{to4, to16}

-- A text of decimal digits as a number, behind digits that stand for `acc`.
number : Text → ℕ → Option ℕ
number [] acc = some acc
number (c ∷ s) acc =
    let rest = number s (acc * 10 + (c - 48)) in if leb b'0' c && leb c b'9' then rest else none

byte_or_none : Option ℕ → Option ℕ
byte_or_none none = none
byte_or_none (some n) = if leb n 255 then some n else none

-- One part of the dotted form: no digit is missing, and no zero stands in front of others.
dotted_part : Text → Option ℕ
unfolding number byte_or_none
dotted_part [] = none
dotted_part (c ∷ []) = byte_or_none (number (c ∷ []) 0)
dotted_part (c ∷ d ∷ s) = if c == b'0' then none else byte_or_none (number (c ∷ d ∷ s) 0)

dotted_parts : List Text → Option Text
unfolding dotted_part
dotted_parts [] = some []
dotted_parts (p ∷ ps) = elim (dotted_part p) [
  | none ↦ none
  | some b ↦ elim (dotted_parts ps) [ none ↦ none | some bs ↦ some (b ∷ bs) ]
]

unfoldable pub parse_ip4 : Text → Option Text
unfolding dotted_parts split
parse_ip4 s = elim (dotted_parts (split b'.' s)) [
  | none ↦ none
  | some ip ↦ if length ip == 4 then some ip else none
]

hex_digit : ℕ → Option ℕ
hex_digit c =
    if leb b'0' c && leb c b'9'
    then some (c - 48)
    else if leb b'a' c && leb c b'f'
    then some (c - 87)
    else if leb b'A' c && leb c b'F'
    then some (c - 55)
    else none

-- The hexadecimal digits in front: their count, their number, and the rest.
take_hex : Text → ℕ → ℕ → ℕ × ℕ × Text
unfolding hex_digit
take_hex [] n acc = (n, acc, [])
take_hex (c ∷ s) n acc = elim (hex_digit c) [
  | none ↦ (n, acc, c ∷ s)
  | some d ↦ take_hex s (n + 1) (acc * 16 + d)
]

-- The bytes so far, where the `::` stood, and what is left of the text.
abbrev Groups : Type 0
Groups = Option (Text × Option ℕ × Text)

abbrev Again : Type 0
Again = Text → Text → Option ℕ → Groups

after_ellipsis : Again → Text → Text → Groups
after_ellipsis again [] out = some (out, some (length out), [])
after_ellipsis again (c ∷ s) out = again (c ∷ s) out (some (length out))

after_colon : Again → Text → Text → Option ℕ → Groups
unfolding after_ellipsis
after_colon again [] out e = none
after_colon again (c ∷ s) out e =
    if c == b':'
    then (elim e [ some _ ↦ none | none ↦ after_ellipsis again s out ])
    else again (c ∷ s) out e

abbrev is_none : Option ℕ → Bool
is_none none = true
is_none (some _) = false

-- The dotted form of the last four bytes begins where the group does, at `s`.
after_digits : Again → Text → Text → Text → ℕ → Option ℕ → Groups
unfolding after_colon parse_ip4
after_digits again s [] out acc e = some (out ++ acc / 256 ∷ acc % 256 ∷ [], e, [])
after_digits again s (c ∷ rest) out acc e =
    if c == b'.'
    then (if (is_none e && not (length out == 12)) || ltb 12 (length out)
        then none
        else (elim (parse_ip4 s) [ none ↦ none | some v4 ↦ some (out ++ v4, e, []) ]))
    else if c == b':'
    then after_colon again rest (out ++ acc / 256 ∷ acc % 256 ∷ []) e
    else none

-- At most this many groups of two bytes are still to come.
groups6 : ℕ → Again
unfolding take_hex after_digits
groups6 zero s out e = some (out, e, s)
groups6 (suc n) s out e =
    let (digits, acc, rest) = take_hex s 0 0 in
    if digits == 0 || ltb 4 digits then none else after_digits (groups6 n) s rest out acc e

-- The zeros that the `::` stands for.
filled : Groups → Option Text
filled (some (out, none, [])) = if length out == 16 then some out else none
filled (some (out, some k, [])) =
    if ltb (length out) 16
    then some (take k out ++ (replicate (16 - length out) 0 ++ drop k out))
    else none
filled _ = none

parse_ip6 : Text → Option Text
unfolding groups6 filled strip_prefix
parse_ip6 s = elim (strip_prefix (text "::") s) [
  | some [] ↦ some (replicate 16 0)
  | some (c ∷ rest) ↦ filled (groups6 8 (c ∷ rest) [] (some 0))
  | none ↦ filled (groups6 8 s [] none)
]

-- Which form it is: the first dot or colon tells.
parse_form : Text → Text → Option Text
unfolding parse_ip4 parse_ip6 to16
parse_form s [] = none
parse_form s (c ∷ rest) =
    let more = parse_form s rest in
    if c == b'.'
    then (elim (parse_ip4 s) [ none ↦ none | some ip ↦ some (to16 ip) ])
    else if c == b':'
    then parse_ip6 s
    else if c == b'%'
    then none
    else more

unfoldable pub parse_ip : Text → Option Text
unfolding parse_form
parse_ip s = parse_form s s

-- `ip.IsPrivate()`
unfoldable pub is_private : Text → Bool
unfolding to4
is_private ip = elim (to4 ip) [
  | some (a ∷ b ∷ _) ↦ a == 10 || ((a == 172 && b / 16 == 1) || (a == 192 && b == 168))
  | some _ ↦ false
  | none ↦ length ip == 16 && get_or ip 0 0 / 2 == 126
]

v4_parsed : parse_ip (text "192.168.1.20") ≡ some (to16 (192 ∷ 168 ∷ 1 ∷ 20 ∷ []))
unfolding parse_ip
v4_parsed = refl

v4_refused : parse_ip (text "192.168.01.20") ≡ none
unfolding parse_ip
v4_refused = refl

loopback_parsed : parse_ip (text "::1") ≡ some (replicate 15 0 ++ 1 ∷ [])
unfolding parse_ip
loopback_parsed = refl

mapped_parsed : parse_ip (text "::ffff:10.0.0.1") ≡ some (to16 (10 ∷ 0 ∷ 0 ∷ 1 ∷ []))
unfolding parse_ip
mapped_parsed = refl

name_refused : parse_ip (text "a.org") ≡ none
unfolding parse_ip
name_refused = refl
