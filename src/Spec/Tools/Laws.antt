-- ===== src/Spec/Tools/Laws.antt =====
-- Round trips and meaning of the helpers of spec/tools.go.
use mathlib.Core.Logic.{if_pos, if_neg}
use toh.Base.{
  ℕ, ◌+◌, ◌<◌, Text, ◌≡◌, refl, ◌≢◌, sym, ap, suc, List, [], ◌∷◌, ◌++◌, All, get_elem?, take, some,
  Text-discrete, arith,
}
use toh.Base.Int.{ℤ, pos, negsuc}
use toh.Spec.Tools.{slice_index_from, slice_index, uint16_to_bytes, bytes_to_uint16}

-- Decoding the bytes of a 16-bit number gives it back, whatever follows; and a text that begins
-- with two bytes begins with the encoding of what it decodes to.
uint16_roundtrip :
    (n hi lo : ℕ) (rest : Text)
    → n < 65536
    → hi < 256
    → lo < 256
    → (bytes_to_uint16 (uint16_to_bytes n ++ rest) ≡ n)
      × (uint16_to_bytes (bytes_to_uint16 (hi ∷ lo ∷ rest)) ≡ hi ∷ lo ∷ [])
unfolding uint16_to_bytes bytes_to_uint16
uint16_roundtrip n hi lo rest hn hh hl = ground arith

-- The value stands at the index, and at none before it, or the index is -1 and it stands nowhere.
abbrev pub IsIndex : ℕ → List Text → Text → ℤ → Type 0
IsIndex i s v (pos n) =
    (k : ℕ) × (n ≡ i + k) × (get_elem? s k ≡ some v) × All (λ w. w ≢ v) (take k s)
IsIndex i s v (negsuc n) = (n ≡ 0) × All (λ w. w ≢ v) s

module _ (i : ℕ) (s : List Text) (v w : Text) (ne : v ≢ w) where
  IsIndex-cons : (r : ℤ) → IsIndex (i + 1) s v r → IsIndex i (w ∷ s) v r
  IsIndex-cons (pos n) (k, at_k, found, first) =
      (suc k, omega arith, found, ((λ e. ne (sym e)), first))
  IsIndex-cons (negsuc n) (z, none_left) = (z, ((λ e. ne (sym e)), none_left))

slice_index_from_lem : (i : ℕ) (s : List Text) (v : Text) → IsIndex i s v (slice_index_from i s v)
unfolding slice_index_from
slice_index_from_lem i [] v = (refl, tt)
slice_index_from_lem i (w ∷ s) v = elim (Text-discrete v w) [
  | yes e ↦ rw (if_pos _ e) (0, omega arith, ap some (sym e), tt)
  | no ne ↦ rw (if_neg _ ne) (IsIndex-cons i s v w ne _ (slice_index_from_lem (i + 1) s v))
]

-- `SliceIndex` gives the first index at which the value stands, and -1 exactly if it stands nowhere.
pub slice_index_lem : (s : List Text) (v : Text) → IsIndex 0 s v (slice_index s v)
unfolding slice_index
slice_index_lem s v = slice_index_from_lem 0 s v
