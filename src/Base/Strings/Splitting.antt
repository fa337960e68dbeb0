-- ===== src/Base/Strings/Splitting.antt =====
-- What `split` does: it takes a text apart at every separator, and joining undoes it.
use toh.Base.{ℕ, Text, ◌≡◌, refl, ◌≢◌, inl, inr, Bool-cases, List, [], ◌∷◌, ◌++◌, All, arith, ◌==◌}
use toh.Base.Strings.{split, attach}

-- No byte of the text is `c`.
abbrev pub Free : ℕ → Text → Type 0
Free c s = All (λ b. b ≢ c) s

unfoldable pub join : ℕ → List Text → Text
join sep [] = []
join sep (p ∷ []) = p
join sep (p ∷ q ∷ ps) = p ++ sep ∷ join sep (q ∷ ps)

split-ne-nil : (sep : ℕ) (s : Text) → split sep s ≢ []
unfolding split
split-ne-nil sep [] e = cc
split-ne-nil sep (c ∷ s) e = ground (arith, split-ne-nil sep s)

join-attach : (sep c : ℕ) (ps : List Text) → ps ≢ [] → join sep (attach c ps) ≡ c ∷ join sep ps
unfolding join
join-attach sep c [] h = absurd (h refl)
join-attach sep c (p ∷ []) h = refl
join-attach sep c (p ∷ q ∷ ps) h = refl

join-nil_cons : (sep : ℕ) (ps : List Text) → ps ≢ [] → join sep ([] ∷ ps) ≡ sep ∷ join sep ps
unfolding join
join-nil_cons sep [] h = absurd (h refl)
join-nil_cons sep (p ∷ ps) h = refl

pub join-split : (sep : ℕ) (s : Text) → join sep (split sep s) ≡ s
unfolding split
join-split sep [] = unfold join in refl
join-split sep (c ∷ s) = ground (
  arith,
  join-split sep s,
  split-ne-nil sep s,
  join-attach sep c (split sep s),
  join-nil_cons sep (split sep s),
)

pub split-Free : (sep : ℕ) (s : Text) → Free sep s → split sep s ≡ s ∷ []
unfolding split
split-Free sep [] h = refl
split-Free sep (c ∷ s) h = ground (arith, split-Free sep s)

pub split-append : (sep : ℕ) (s t : Text) → Free sep s → split sep (s ++ sep ∷ t) ≡ s ∷ split sep t
unfolding split
split-append sep [] t h = ground arith
split-append sep (c ∷ s) t h = ground (arith, split-append sep s t)

attach-All :
    (sep c : ℕ) (ps : List Text) → c ≢ sep → All (Free sep) ps → All (Free sep) (attach c ps)
attach-All sep c [] h a = ((h, tt), tt)
attach-All sep c (p ∷ ps) h a = ((h, a.0), a.1)

pub split-All : (sep : ℕ) (s : Text) → All (Free sep) (split sep s)
unfolding split
split-All sep [] = (tt, tt)
split-All sep (c ∷ s) = elim (Bool-cases (c == sep)) [
  | inl e ↦ rw e (tt, split-All sep s)
  | inr e ↦ rw e (attach-All sep c (split sep s) (ground arith) (split-All sep s))
]
