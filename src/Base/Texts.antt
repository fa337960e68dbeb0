-- ===== src/Base/Texts.antt =====
-- A Go string or byte slice: the sequence of its bytes, and the comparison of two.
use Prim.Native.Char.{code}
use Prim.Native.Nat.{ℕ}
use Prim.Native.String.{String}
use mathlib.Core.Path.{◌≡◌, refl}
use mathlib.Core.Logic.{◌↔◌, ite}
use mathlib.Core.Bool.{Bool, true, false}
use mathlib.Core.List.{List, [], ◌∷◌}
use native.Mathlib.Omega.{arith}
use native.Mathlib.Decide.{ℕ_discrete}

abbrev pub Text : Type 0
Text = List ℕ

-- The bytes of an ASCII literal.
abbrev pub text : String → Text
text String.[] = []
text (String.◌∷◌ c s) = code c ∷ text s

unfoldable pub Text-discrete : Discrete Text
unfolding ℕ_discrete
Text-discrete = hlevel ℕ_discrete

-- `s == t` on strings.
abbrev pub same : Text → Text → Bool
same s t = ite (Text-discrete s t) true false

pub same_refl : (s : Text) → same s s ≡ true
same_refl s = ground arith

pub same_iff : (s t : Text) → (same s t ≡ true) ↔ (s ≡ t)
same_iff s t = ground arith

abc : same (text "abc") (text "abc") ≡ true
unfolding Text-discrete
abc = refl

abd : same (text "abc") (text "abd") ≡ false
unfolding Text-discrete
abd = refl
