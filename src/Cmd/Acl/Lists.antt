-- ===== src/Cmd/Acl/Lists.antt =====
-- What the list commands of cmd/acl/access.go make of a list.
use toh.Base.{
  ℕ, zero, suc, Text, same, ◌≡◌, ◌≢◌, ◌↔◌, ◌⊎◌, inl, inr, Bool, true, false, Option, none, some,
  List, [], ◌∷◌, ◌++◌, All, Any, get_elem?, arith,
}
use toh.Base.Int.{ℤ, pos, negsuc, ltb_ℤ}
use toh.Spec.Tools.{slice_index}
use toh.Spec.Tools.Laws.{IsIndex, slice_index_lem}
use toh.Cmd.Acl.{elements, append, is_missing, add_items, del_items}

-- The text is an element of the list.
abbrev pub Contains : List Text → Text → Type 0
Contains l e = Any (λ w. w ≡ e) l

get_elem?-Contains : (l : List Text) (k : ℕ) (e : Text) → get_elem? l k ≡ some e → Contains l e
get_elem?-Contains [] k e h = cc
get_elem?-Contains (w ∷ l) zero e h = inl (cc h)
get_elem?-Contains (w ∷ l) (suc k) e h = inr (get_elem?-Contains l k e h)

not_Contains : (l : List Text) (e : Text) → All (λ w. w ≢ e) l → ¬ Contains l e
not_Contains [] e h c = c
not_Contains (w ∷ l) e h (inl same) = h.0 same
not_Contains (w ∷ l) e h (inr later) = not_Contains l e h.1 later

-- The answer of the index, and what it means.
abbrev Finds : List Text → Text → Bool → Type 0
Finds l e missing = ((missing ≡ true) × ¬ Contains l e) ⊎ ((missing ≡ false) × Contains l e)

index-Finds : (l : List Text) (e : Text) (r : ℤ) → IsIndex 0 l e r → Finds l e (ltb_ℤ r (pos 0))
index-Finds l e (pos n) (k, at_k, found, first) = inr (ground arith, get_elem?-Contains l k e found)
index-Finds l e (negsuc n) (at_end, missing) = inl (ground arith, not_Contains l e missing)

is_missing-Finds : (l : List Text) (e : Text) → Finds l e (is_missing l e)
is_missing-Finds l e = index-Finds l e (slice_index l e) (slice_index_lem l e)

Contains-append : (l : List Text) (a e : Text) → Contains (l ++ a ∷ []) e ↔ (Contains l e ⊎ (a ≡ e))
Contains-append [] a e = ground arith
Contains-append (w ∷ l) a e = ground (arith, Contains-append l a e)

-- The elements are those of the old list and the arguments.
abbrev Joins : Option (List Text) → List Text → Option (List Text) → Text → Type 0
Joins old args new e = Contains (elements new) e ↔ (Contains (elements old) e ⊎ Contains args e)

Joins-add_items :
    (args : List Text) (old : Option (List Text)) (e : Text) → Joins old args (add_items args old) e
unfolding add_items
Joins-add_items [] old e = ground arith
Joins-add_items (a ∷ args) old e = elim (is_missing-Finds (elements old) a) [
  | inl (new, absent) ↦
      rw new
        (ground (arith, Joins-add_items args (append old a) e, Contains-append (elements old) a e))
  | inr (there, present) ↦ rw there (ground (arith, Joins-add_items args old e))
]

abbrev pub HasNoRepeats : List Text → Type 0
HasNoRepeats [] = Unit
HasNoRepeats (w ∷ l) = (¬ Contains l w) × HasNoRepeats l

append-HasNoRepeats :
    (l : List Text) (a : Text) → HasNoRepeats l → ¬ Contains l a → HasNoRepeats (l ++ a ∷ [])
append-HasNoRepeats [] a h absent = ground arith
append-HasNoRepeats (w ∷ l) a h absent =
    (ground (arith, Contains-append l a w), append-HasNoRepeats l a h.1 (ground arith))

add_items-HasNoRepeats :
    (args : List Text) (old : Option (List Text))
    → HasNoRepeats (elements old)
    → HasNoRepeats (elements (add_items args old))
unfolding add_items
add_items-HasNoRepeats [] old h = h
add_items-HasNoRepeats (a ∷ args) old h = elim (is_missing-Finds (elements old) a) [
  | inl (new, absent) ↦
      rw new
        (add_items-HasNoRepeats args (append old a) (append-HasNoRepeats (elements old) a h absent))
  | inr (there, present) ↦ rw there (add_items-HasNoRepeats args old h)
]

-- Adding to a list gives the elements of the list and the arguments, and no repeats if the list
-- had none.
add_items_lem :
    (args : List Text) (old : Option (List Text))
    → ((e : Text)
        → Contains (elements (add_items args old)) e
          ↔ (Contains (elements old) e ⊎ Contains args e))
      × (HasNoRepeats (elements old) → HasNoRepeats (elements (add_items args old)))
add_items_lem args old = (Joins-add_items args old, add_items-HasNoRepeats args old)

-- The elements are those of the new list so far, and those of the old list that are no arguments.
abbrev Keeps : List Text → List Text → Option (List Text) → Option (List Text) → Text → Type 0
Keeps args old before after e =
    Contains (elements after) e
    ↔ (Contains (elements before) e ⊎ (Contains old e × ¬ Contains args e))

Keeps-del_items :
    (args old : List Text) (before : Option (List Text)) (e : Text)
    → Keeps args old before (del_items args old before) e
unfolding del_items
Keeps-del_items args [] before e = ground arith
Keeps-del_items args (a ∷ old) before e = elim (is_missing-Finds args a) [
  | inl (kept, absent) ↦ rw kept (
      ground (
        arith,
        Keeps-del_items args old (append before a) e,
        Contains-append (elements before) a e,
      ))
  | inr (gone, present) ↦ rw gone (ground (arith, Keeps-del_items args old before e))
]

del_items-some : (args old l : List Text) → del_items args old (some l) ≢ none
unfolding del_items
del_items-some args [] l e = cc
del_items-some args (a ∷ old) l e = elim (is_missing-Finds args a) [
  | inl (kept, absent) ↦ del_items-some args old (l ++ a ∷ []) (rw kept at e)
  | inr (gone, present) ↦ del_items-some args old l (rw gone at e)
]

del_items-none_iff :
    (args old : List Text) → (del_items args old none ≡ none) ↔ All (Contains args) old
unfolding del_items
del_items-none_iff args [] = ground arith
del_items-none_iff args (a ∷ old) = elim (is_missing-Finds args a) [
  | inl (kept, absent) ↦ rw kept (ground (arith, del_items-some args old (a ∷ [])))
  | inr (gone, present) ↦ rw gone (ground (arith, del_items-none_iff args old))
]

-- Deleting from a list leaves the elements that are no arguments; the list becomes nil exactly if
-- that leaves nothing.
pub del_items_lem :
    (args old : List Text)
    → ((e : Text)
        → Contains (elements (del_items args old none)) e ↔ (Contains old e × ¬ Contains args e))
      × ((del_items args old none ≡ none) ↔ All (Contains args) old)
del_items_lem args old =
    ((λ e. ground (arith, Keeps-del_items args old none e)), del_items-none_iff args old)
