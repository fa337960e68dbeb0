-- ===== src/Socks5/Udp/Format.antt =====
-- The datagram format of socks5/udp.go: decoding and building agree.
use toh.Base.{
  ℕ, zero, suc, take_front, length-append, ◌≢◌, ◌+◌, ◌*◌, ◌/◌, ◌%◌, ◌≤◌, ◌<◌, Text, ◌≡◌, refl, sym,
  ap, ◌∙◌, subst, ◌⊎◌, inl, inr, none, some, Option-cases, [], ◌∷◌, ◌++◌, length, take, drop, All,
  Result, ok, arith,
}
use toh.Base.Strings.{strip_prefix}
use toh.Base.Net.{to4, to16, mapped}
use toh.Spec.Tools.{uint16_to_bytes}
use toh.Socks5.Udp.{Datagram, DecodeError, decode_socks5_packet, reply_packet}

-- The shortest form of an address.
abbrev pub shortest : Text → Text
shortest ip = elim (to4 ip) [ some v4 ↦ v4 | none ↦ ip ]

-- The two bytes behind the first `n`.
slice_two :
    (n : ℕ) (xs : Text) (hi lo : ℕ) (ys : Text)
    → length xs ≡ n
    → drop n (take (suc (suc n)) (xs ++ hi ∷ lo ∷ ys)) ≡ hi ∷ lo ∷ []
slice_two zero [] hi lo ys h = refl
slice_two zero (x ∷ xs) hi lo ys h = absurd (omega arith)
slice_two (suc n) [] hi lo ys h = absurd (omega arith)
slice_two (suc n) (x ∷ xs) hi lo ys h = slice_two n xs hi lo ys (omega arith)

drop_two :
    (n : ℕ) (xs : Text) (hi lo : ℕ) (ys : Text)
    → length xs ≡ n
    → drop (suc (suc n)) (xs ++ hi ∷ lo ∷ ys) ≡ ys
drop_two zero [] hi lo ys h = refl
drop_two zero (x ∷ xs) hi lo ys h = absurd (omega arith)
drop_two (suc n) [] hi lo ys h = absurd (omega arith)
drop_two (suc n) (x ∷ xs) hi lo ys h = drop_two n xs hi lo ys (omega arith)

-- A packet with an address of four bytes, or of sixteen.
decode_v4 :
    (ip : Text) (hi lo : ℕ) (payload : Text)
    → length ip ≡ 4
    → decode_socks5_packet (0 ∷ 0 ∷ 0 ∷ 1 ∷ (ip ++ hi ∷ lo ∷ payload))
      ≡ ok (record { ip = ip; port = hi * 256 + lo; payload = payload })
unfolding decode_socks5_packet
decode_v4 ip hi lo payload h = ground (
  arith,
  length-append ip (hi ∷ lo ∷ payload),
  take_front 4 ip (hi ∷ lo ∷ payload) h,
  slice_two 4 ip hi lo payload h,
  drop_two 4 ip hi lo payload h,
)

decode_v6 :
    (ip : Text) (hi lo : ℕ) (payload : Text)
    → length ip ≡ 16
    → decode_socks5_packet (0 ∷ 0 ∷ 0 ∷ 4 ∷ (ip ++ hi ∷ lo ∷ payload))
      ≡ ok (record { ip = ip; port = hi * 256 + lo; payload = payload })
unfolding decode_socks5_packet
decode_v6 ip hi lo payload h = ground (
  arith,
  length-append ip (hi ∷ lo ∷ payload),
  take_front 16 ip (hi ∷ lo ∷ payload) h,
  slice_two 16 ip hi lo payload h,
  drop_two 16 ip hi lo payload h,
)

length-strip_prefix : (p s t : Text) → strip_prefix p s ≡ some t → length p + length t ≡ length s
unfolding strip_prefix
length-strip_prefix [] s t h = ground arith
length-strip_prefix (b ∷ p) [] t h = cc
length-strip_prefix (b ∷ p) (c ∷ s) t h = ground (arith, length-strip_prefix p s t)

pub length-to4 : (ip v4 : Text) → to4 ip ≡ some v4 → length v4 ≡ 4
unfolding to4
length-to4 ip v4 h = ground (arith, length-strip_prefix mapped ip v4)

pub shortest-none : (ip : Text) → to4 ip ≡ none → shortest ip ≡ ip
shortest-none ip h = ground arith

pub shortest-some : (ip v4 : Text) → to4 ip ≡ some v4 → shortest ip ≡ v4
shortest-some ip v4 h = ground arith

to16_wide : (ip : Text) → length ip ≡ 16 → to16 ip ≡ ip
unfolding to16
to16_wide ip h = ground arith

abbrev datagram : Text → Text → ℕ → Result DecodeError Datagram
datagram ip payload port = ok (record { ip = ip; port = port; payload = payload })

to4-none : (ip : Text) → length ip ≡ 4 → to4 ip ≢ none
unfolding to4
to4-none ip h e = ground arith

-- A packet built for an address of 4 or 16 bytes and a 16-bit port decodes to the address in its
-- shortest form, the port and the content.
pub decode-reply_packet :
    (ip : Text) (port : ℕ) (content : Text)
    → (length ip ≡ 4) ⊎ (length ip ≡ 16)
    → port < 65536
    → decode_socks5_packet (reply_packet ip port content)
      ≡ ok (record { ip = shortest ip; port = port; payload = content })
unfolding reply_packet uint16_to_bytes
decode-reply_packet ip port content size small =
    let recombined : port / 256 % 256 * 256 + port % 256 ≡ port = omega arith in
    elim (Option-cases (to4 ip)) [
      | inl long ↦
          let wide : length ip ≡ 16 = ground (arith, to4-none ip) in
          rw (long, reply_packet, to16_wide ip wide)
            (decode_v6 ip (port / 256 % 256) (port % 256) content wide
              ∙ (ap (datagram ip content) recombined
                  ∙ ap (λ a. datagram a content port) (sym (shortest-none ip long))))
      | inr (v4, short) ↦
          rw (short, reply_packet)
            (decode_v4 v4 (port / 256 % 256) (port % 256) content (length-to4 ip v4 short)
              ∙ (ap (datagram v4 content) recombined
                  ∙ ap (λ a. datagram a content port) (sym (shortest-some ip v4 short))))
    ]

-- What the tests before the end have found.
decode_head :
    (a b c t : ℕ) (rest : Text) (d : Datagram)
    → decode_socks5_packet (a ∷ b ∷ c ∷ t ∷ rest) ≡ ok d
    → (a ≡ 0) × (b ≡ 0) × (c ≡ 0) × (((t ≡ 1) × (6 ≤ length rest)) ⊎ ((t ≡ 4) × (18 ≤ length rest)))
unfolding decode_socks5_packet
decode_head a b c t rest d h = ground arith

-- A text of at least `n` bytes and two more, in parts.
parts :
    (n : ℕ) (s : Text)
    → suc (suc n) ≤ length s
    → (ip : Text) × (hi : ℕ) × (lo : ℕ) × (content : Text) × (length ip ≡ n)
      × (s ≡ ip ++ hi ∷ lo ∷ content)
parts zero (hi ∷ lo ∷ content) h = ([], hi, lo, content, refl, refl)
parts zero (hi ∷ []) h = absurd (omega arith)
parts zero [] h = absurd (omega arith)
parts (suc n) [] h = absurd (omega arith)
parts (suc n) (b ∷ s) h =
    let (ip, hi, lo, content, size, e) = parts n s (omega arith) in
    (b ∷ ip, hi, lo, content, ap suc size, ap (λ t. b ∷ t) e)

All-back : (P : ℕ → Type 0) (xs ys : Text) → All P (xs ++ ys) → All P ys
All-back P [] ys h = h
All-back P (x ∷ xs) ys h = All-back P xs ys h.1

port_bytes :
    (ip : Text) (hi lo : ℕ) (content : Text)
    → All (λ b. b < 256) (ip ++ hi ∷ lo ∷ content)
    → uint16_to_bytes (hi * 256 + lo) ++ content ≡ hi ∷ lo ∷ content
unfolding uint16_to_bytes
port_bytes ip hi lo content h =
    let back = All-back (λ b. b < 256) ip (hi ∷ lo ∷ content) h in
    let hi_byte : hi < 256 = back.0 in let lo_byte : lo < 256 = back.1.0 in ground arith

-- The packet, of the kind `t` and behind its header, is what the datagram is built from.
abbrev pub IsBuilt : Text → Datagram → Type 0
IsBuilt packet d =
    (atyp : ℕ) × (((atyp ≡ 1) × (length d.ip ≡ 4)) ⊎ ((atyp ≡ 4) × (length d.ip ≡ 16)))
    × (packet ≡ 0 ∷ 0 ∷ 0 ∷ atyp ∷ (d.ip ++ (uint16_to_bytes d.port ++ d.payload)))

ok-injective : (a b : Datagram) → ◌≡◌ {A = Result DecodeError Datagram} (ok a) (ok b) → a ≡ b
ok-injective a b h = cc

IsBuilt-v4 :
    (rest : Text) (d : Datagram)
    → All (λ b. b < 256) rest
    → 6 ≤ length rest
    → decode_socks5_packet (0 ∷ 0 ∷ 0 ∷ 1 ∷ rest) ≡ ok d
    → IsBuilt (0 ∷ 0 ∷ 0 ∷ 1 ∷ rest) d
IsBuilt-v4 rest d bytes room h =
    let (ip, hi, lo, content, size, e) = parts 4 rest room in
    let whole = subst (λ s. All (λ b. b < 256) s) e bytes in
    let same : datagram ip content (hi * 256 + lo) ≡ ok d =
      sym (decode_v4 ip hi lo content size)
      ∙ (ap (λ s. decode_socks5_packet (0 ∷ 0 ∷ 0 ∷ 1 ∷ s)) (sym e) ∙ h) in
    subst (λ x. IsBuilt (0 ∷ 0 ∷ 0 ∷ 1 ∷ rest) x) (ok-injective _ d same)
      (
        1,
        inl (refl, size),
        ap (λ s. 0 ∷ 0 ∷ 0 ∷ 1 ∷ s)
            (e ∙ ap (λ s. ip ++ s) (sym (port_bytes ip hi lo content whole))),
      )

IsBuilt-v6 :
    (rest : Text) (d : Datagram)
    → All (λ b. b < 256) rest
    → 18 ≤ length rest
    → decode_socks5_packet (0 ∷ 0 ∷ 0 ∷ 4 ∷ rest) ≡ ok d
    → IsBuilt (0 ∷ 0 ∷ 0 ∷ 4 ∷ rest) d
IsBuilt-v6 rest d bytes room h =
    let (ip, hi, lo, content, size, e) = parts 16 rest room in
    let whole = subst (λ s. All (λ b. b < 256) s) e bytes in
    let same : datagram ip content (hi * 256 + lo) ≡ ok d =
      sym (decode_v6 ip hi lo content size)
      ∙ (ap (λ s. decode_socks5_packet (0 ∷ 0 ∷ 0 ∷ 4 ∷ s)) (sym e) ∙ h) in
    subst (λ x. IsBuilt (0 ∷ 0 ∷ 0 ∷ 4 ∷ rest) x) (ok-injective _ d same)
      (
        4,
        inr (refl, size),
        ap (λ s. 0 ∷ 0 ∷ 0 ∷ 4 ∷ s)
            (e ∙ ap (λ s. ip ++ s) (sym (port_bytes ip hi lo content whole))),
      )

-- A packet of bytes that decodes was built, after its three zero bytes, from the kind of its address,
-- the 4 or 16 bytes of the address, the port and the content.
pub decode_sound :
    (packet : Text) (d : Datagram)
    → All (λ b. b < 256) packet
    → decode_socks5_packet packet ≡ ok d
    → IsBuilt packet d
decode_sound [] d bytes h = unfold decode_socks5_packet in cc h
decode_sound (a ∷ []) d bytes h = unfold decode_socks5_packet in cc h
decode_sound (a ∷ b ∷ []) d bytes h = unfold decode_socks5_packet in cc h
decode_sound (a ∷ b ∷ c ∷ []) d bytes h = unfold decode_socks5_packet in cc h
decode_sound (a ∷ b ∷ c ∷ t ∷ rest) d bytes h =
    let (za, zb, zc, kind) = decode_head a b c t rest d h in
    elim kind [
      | inl (one, room) ↦
          rw (za, zb, zc, one) (IsBuilt-v4 rest d bytes.1.1.1.1 room (cc (za, zb, zc, one, h)))
      | inr (four, room) ↦
          rw (za, zb, zc, four) (IsBuilt-v6 rest d bytes.1.1.1.1 room (cc (za, zb, zc, four, h)))
    ]
