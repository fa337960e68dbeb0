-- ===== src/Base/Net.antt =====
-- What the program uses of Go's package net: IP addresses as bytes, and their texts.
use toh.Base.{
  ℕ, zero, suc, ◌+◌, ◌*◌, ◌/◌, ◌%◌, Text, text, same, ◌≡◌, refl, Bool, false, ◌&&◌, ◌||◌, Option,
  none, some, List, [], ◌∷◌, ◌++◌, map, length, take, drop, ltb, leb, ◌==◌, if◌then◌else◌,
}
use toh.Base.Strings.{strip_prefix, contains}
use toh.Base.Strings.Splitting.{join}

-- The first twelve bytes of an IPv4 address in its IPv6 form.
abbrev pub mapped : Text
mapped = 0 ∷ 0 ∷ 0 ∷ 0 ∷ 0 ∷ 0 ∷ 0 ∷ 0 ∷ 0 ∷ 0 ∷ 0xff ∷ 0xff ∷ []

-- `ip.To4()`, with `none` for nil.
unfoldable pub to4 : Text → Option Text
to4 ip =
    if length ip == 4 then some ip else if length ip == 16 then strip_prefix mapped ip else none

-- `ip.To16()`, with the empty text for nil.
unfoldable pub to16 : Text → Text
to16 ip = if length ip == 4 then mapped ++ ip else if length ip == 16 then ip else []

-- `ip.IsLoopback()`
unfoldable pub is_loopback : Text → Bool
unfolding to4
is_loopback ip = elim (to4 ip) [
  | some (a ∷ _) ↦ a == 127
  | some [] ↦ false
  | none ↦ same ip (0 ∷ 0 ∷ 0 ∷ 0 ∷ 0 ∷ 0 ∷ 0 ∷ 0 ∷ 0 ∷ 0 ∷ 0 ∷ 0 ∷ 0 ∷ 0 ∷ 0 ∷ 1 ∷ [])
]

-- The digits of a number in a base, of at most as many places as there is fuel.
digits : ℕ → ℕ → ℕ → Text → Text
digits base zero n acc = acc
digits base (suc fuel) n acc =
    let d = n % base in
    let c = (if ltb d 10 then 48 + d else 87 + d) ∷ acc in
    let rest = digits base fuel (n / base) c in if n / base == 0 then c else rest

-- `%d` of a number below 2 ^ 64, which has at most 20 digits, and `%x` of one below 2 ^ 16.
unfoldable pub decimal : ℕ → Text
unfolding digits
decimal n = digits 10 20 n []

unfoldable pub hex : ℕ → Text
unfolding digits
hex n = digits 16 4 n []

-- The eight groups of an IPv6 address.
groups : Text → List ℕ
groups (hi ∷ lo ∷ rest) = (hi * 256 + lo) ∷ groups rest
groups _ = []

zero_run : List ℕ → ℕ
zero_run [] = 0
zero_run (g ∷ gs) = let n = zero_run gs in if g == 0 then n + 1 else 0

-- The first of the longest runs of at least two zero groups, as its start and length.
longest_run : ℕ → List ℕ → ℕ × ℕ → ℕ × ℕ
unfolding zero_run
longest_run i [] best = best
longest_run i (g ∷ gs) (start, len) =
    let n = zero_run (g ∷ gs) in
    longest_run (i + 1) gs (if leb 2 n && ltb len n then (i, n) else (start, len))

ip6_string : List ℕ → Text
unfolding longest_run hex join
ip6_string gs =
    let (start, len) = longest_run 0 gs (0, 0) in
    if len == 0
    then join b':' (map hex gs)
    else join b':' (map hex (take start gs))
      ++ (text "::" ++ join b':' (map hex (drop (start + len) gs)))

-- `ip.String()` of 4 or 16 bytes; an IPv4 address in IPv6 form is written as IPv4. (For nil it is
-- `<nil>`; other lengths do not occur.)
unfoldable pub ip_string : Text → Text
unfolding to4 ip6_string groups decimal
ip_string ip = elim (to4 ip) [
  | some v4 ↦ join b'.' (map decimal v4)
  | none ↦ if length ip == 0 then text "<nil>" else ip6_string (groups ip)
]

-- `net.JoinHostPort(host, port)`
unfoldable pub join_host_port : Text → Text → Text
join_host_port host port =
    if contains host (text ":") || contains host (text "%")
    then text "[" ++ (host ++ (text "]:" ++ port))
    else host ++ (text ":" ++ port)

loopback6 :
    ip_string (0x20 ∷ 0x01 ∷ 0x0d ∷ 0xb8 ∷ 0 ∷ 0 ∷ 0 ∷ 0 ∷ 0 ∷ 1 ∷ 0 ∷ 0 ∷ 0 ∷ 0 ∷ 0 ∷ 1 ∷ [])
    ≡ text "2001:db8::1:0:0:1"
unfolding ip_string strip_prefix
loopback6 = refl

endpoint : join_host_port (ip_string (127 ∷ 0 ∷ 0 ∷ 1 ∷ [])) (decimal 1080) ≡ text "127.0.0.1:1080"
unfolding ip_string join_host_port decimal contains
endpoint = refl
