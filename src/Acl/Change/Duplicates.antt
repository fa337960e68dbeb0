-- ===== src/Acl/Change/Duplicates.antt =====
-- `DelKey` of server/acl/acl.go on a list that holds one key twice.
use mathlib.Core.List.{append_assoc}
use native.Mathlib.Decide.{dec_lt}
use toh.Base.{
  ℕ, zero, suc, ◌+◌, ◌-◌, ◌≤◌, ◌<◌, Text, Text-discrete, ◌≡◌, refl, sym, ap, ◌∙◌, true, some, List,
  [], ◌∷◌, ◌++◌, Any, length, get_elem?, take, drop, drop_all, length-append, length-take,
  length-drop, arith, inl, inr, subst,
}
use toh.Acl.State.{Acl, StoKey}
use toh.Acl.Change.{delete_loop, del_key}
use toh.Acl.Change.Deletion.{shift, step_skip, step_panic, step_shift}

-- The stored key has the text.
abbrev pub Matches : Text → StoKey → Type 0
Matches key k = k.key ≡ key

module _ {ℓ} {A : Type ℓ} where
  get_elem?-some : (xs : List A) (i : ℕ) → i < length xs → (x : A) × (get_elem? xs i ≡ some x)
  get_elem?-some [] i h = absurd (omega arith)
  get_elem?-some (x ∷ xs) zero h = (x, refl)
  get_elem?-some (x ∷ xs) (suc i) h = get_elem?-some xs i (omega arith)

  get_elem?_last :
      (xs : List A) (x : A) (i : ℕ) → i ≡ length xs → get_elem? (xs ++ x ∷ []) i ≡ some x
  get_elem?_last [] x zero h = refl
  get_elem?_last [] x (suc i) h = absurd (omega arith)
  get_elem?_last (y ∷ xs) x zero h = absurd (omega arith)
  get_elem?_last (y ∷ xs) x (suc i) h = get_elem?_last xs x i (omega arith)

  drop_front : (n : ℕ) (xs ys : List A) → n ≤ length xs → drop n (xs ++ ys) ≡ drop n xs ++ ys
  drop_front zero xs ys h = refl
  drop_front (suc n) [] ys h = absurd (omega arith)
  drop_front (suc n) (x ∷ xs) ys h = drop_front n xs ys (omega arith)

  drop-cons :
      (xs ys : List A) (i : ℕ)
      → i < length xs
      → (x : A) × (get_elem? (xs ++ ys) i ≡ some x) × (drop i xs ≡ x ∷ drop (suc i) xs)
  drop-cons [] ys i h = absurd (omega arith)
  drop-cons (x ∷ xs) ys zero h = (x, refl, refl)
  drop-cons (x ∷ xs) ys (suc i) h = drop-cons xs ys i (omega arith)

-- Moving elements down leaves the last place of the array as it is.
module _ (front : List StoKey) (v : StoKey) (i len : ℕ) (inside : i < len)
    (below : len ≤ suc (length front)) where
  abbrev moved : List StoKey
  moved =
      take i (front ++ v ∷ [])
      ++ (drop (suc i) (take len (front ++ v ∷ [])) ++ drop (len - 1) front)

  shift_last : shift i (front ++ v ∷ []) len ≡ moved ++ v ∷ []
  shift_last =
      let p = take i (front ++ v ∷ []) in
      let q = drop (suc i) (take len (front ++ v ∷ [])) in
      let r = drop (len - 1) front in
      rw (drop_front (len - 1) front (v ∷ []) (omega arith))
        (sym (append_assoc p (q ++ r) (v ∷ []) ∙ ap (λ xs. p ++ xs) (append_assoc q r (v ∷ []))))

  length-moved : length moved ≡ length front
  length-moved =
      let arr = front ++ v ∷ [] in
      let q = drop (suc i) (take len arr) in
      omega (
        arith,
        length-append front (v ∷ []),
        length-append (take i arr) (q ++ drop (len - 1) front),
        length-append q (drop (len - 1) front),
        length-take i arr,
        length-take len arr,
        length-drop (suc i) (take len arr),
        length-drop (len - 1) front,
      )

-- Once the slice is shorter than the array, whose last element matches, the loop ends in a panic.
delete_loop_past :
    (rounds i : ℕ) (key : Text) (front : List StoKey) (v : StoKey) (len : ℕ)
    → v.key ≡ key
    → i + rounds ≡ suc (length front)
    → i ≤ length front
    → len ≤ length front
    → (delete_loop rounds i key (front ++ v ∷ []) len).0 ≡ true
delete_loop_past zero i key front v len match fits below short = absurd (omega arith)
delete_loop_past (suc r) i key front v len match fits below short = elim (dec_lt i (length front)) [
  | no at_end ↦
      rw
        (step_panic r i key (front ++ v ∷ []) len v (get_elem?_last front v i (omega arith)) match
          (omega arith))
        refl
  | yes before ↦
      let (w, found, _) = drop-cons front (v ∷ []) i before in
      elim (Text-discrete w.key key) [
        | no differs ↦
            rw (step_skip r i key (front ++ v ∷ []) len w found differs)
              (delete_loop_past r (suc i) key front v len match (omega arith) (omega arith) short)
        | yes same_key ↦ elim (dec_lt i len) [
          | no past ↦
              rw (step_panic r i key (front ++ v ∷ []) len w found same_key (omega arith)) refl
          | yes inside ↦
              let fits' = length-moved front v i len inside (omega arith) in
              rw (step_shift r i key (front ++ v ∷ []) len w found same_key inside) (
                rw (shift_last front v i len inside (omega arith)) (
                  delete_loop_past r (suc i) key (moved front v i len inside (omega arith)) v
                    (len - 1) match (omega (arith, fits')) (omega (arith, fits'))
                    (omega (arith, fits'))))
        ]
      ]
]

-- The first match shortens the slice.
delete_loop_twice :
    (rounds i : ℕ) (key : Text) (front : List StoKey) (v : StoKey)
    → v.key ≡ key
    → Any (Matches key) (drop i front)
    → i + rounds ≡ suc (length front)
    → (delete_loop rounds i key (front ++ v ∷ []) (suc (length front))).0 ≡ true
delete_loop_twice zero i key front v match earlier fits =
    absurd (subst (λ l. Any (Matches key) l) (drop_all i front (omega arith)) earlier)
delete_loop_twice (suc r) i key front v match earlier fits = elim (dec_lt i (length front)) [
  | no at_end ↦ absurd (subst (λ l. Any (Matches key) l) (drop_all i front (omega arith)) earlier)
  | yes before ↦
      let (w, found, step) = drop-cons front (v ∷ []) i before in
      let here : Any (Matches key) (w ∷ drop (suc i) front) = rw step at earlier in
      let arr = front ++ v ∷ [] in
      elim (Text-discrete w.key key) [
        | no differs ↦ rw (step_skip r i key arr (suc (length front)) w found differs) (
            delete_loop_twice r (suc i) key front v match
              (elim here [ inl e ↦ absurd (differs e) | inr later ↦ later ]) (omega arith))
        | yes same_key ↦
            let inside : i < suc (length front) = omega arith in
            let fits' = length-moved front v i (suc (length front)) inside (omega arith) in
            rw (step_shift r i key arr (suc (length front)) w found same_key inside) (
              rw (shift_last front v i (suc (length front)) inside (omega arith)) (
                delete_loop_past r (suc i) key
                  (moved front v i (suc (length front)) inside (omega arith)) v
                  (suc (length front) - 1) match (omega (arith, fits')) (omega (arith, fits'))
                  (omega (arith, fits'))))
      ]
]

-- If the last stored key has the text, and an earlier one too, `DelKey` panics.
pub del_key_duplicate :
    (key : Text) (a : Acl) (front : List StoKey) (v : StoKey)
    → a.sto_keys ≡ front ++ v ∷ []
    → Matches key v
    → Any (Matches key) front
    → (del_key key a).0 ≡ true
unfolding del_key
del_key_duplicate key a front v stored match earlier =
    let n : length (front ++ v ∷ []) ≡ suc (length front) =
      omega (arith, length-append front (v ∷ [])) in
    rw stored
      (rw n (delete_loop_twice (suc (length front)) 0 key front v match earlier (omega arith)))
