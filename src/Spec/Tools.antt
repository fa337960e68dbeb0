-- ===== src/Spec/Tools.antt =====
-- The helpers of spec/tools.go.
pub mod Laws
use toh.Base.{
  ℕ, ◌+◌, ◌*◌, ◌/◌, ◌%◌, Text, text, same, Bool, true, false, List, [], ◌∷◌, if◌then◌else◌,
}
use toh.Base.Int.{ℤ, pos, negsuc, ltb_ℤ}
use toh.Base.Strings.{split, trim_space}

unfoldable pub min_duration : ℤ → ℤ → ℤ
min_duration x y = if ltb_ℤ x y then x else y

-- The loop of `SliceIndex` from index `i` on.
unfoldable pub slice_index_from : ℕ → List Text → Text → ℤ
slice_index_from i [] v = negsuc 0
slice_index_from i (vs ∷ s) v =
    let rest = slice_index_from (i + 1) s v in if same v vs then pos i else rest

unfoldable pub slice_index : List Text → Text → ℤ
unfolding slice_index_from
slice_index s v = slice_index_from 0 s v

-- A uint16 or uint32 in network order.
unfoldable pub uint16_to_bytes : ℕ → Text
uint16_to_bytes n = (n / 256 % 256) ∷ (n % 256) ∷ []

unfoldable pub uint32_to_bytes : ℕ → Text
uint32_to_bytes n = (n / 16777216 % 256) ∷ (n / 65536 % 256) ∷ (n / 256 % 256) ∷ (n % 256) ∷ []

-- `binary.Read` leaves the zero where the buffer is short; the error is dropped.
unfoldable pub bytes_to_uint16 : Text → ℕ
bytes_to_uint16 (hi ∷ lo ∷ _) = hi * 256 + lo
bytes_to_uint16 _ = 0

-- The first element of the result of `strings.Split`, which is never empty.
abbrev first : List Text → Text
first [] = []
first (s ∷ _) = s

-- `header` is `r.Header.Get`, and `remote` the text of the IP that `net.ResolveTCPAddr` makes of
-- `r.RemoteAddr`.
unfoldable pub real_ip : (Text → Text) → Text → Text
real_ip header remote =
    let forwarded = header (text "X-Forwarded-For") in
    if same (header (text "X-Real-IP")) []
    then (if same forwarded [] then remote else first (split b',' (trim_space forwarded)))
    else header (text "X-Real-IP")
