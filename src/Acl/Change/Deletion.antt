-- ===== src/Acl/Change/Deletion.antt =====
-- `DelKey` of server/acl/acl.go: a loop that changes the slice over which it runs.
use native.Mathlib.Nat.{zero-add, suc-add}
use mathlib.Core.List.{append-nil, append_assoc}
use toh.Base.{
  ℕ, zero, suc, ◌+◌, ◌-◌, ◌≤◌, ◌<◌, Text, same, Text-discrete, subst, ◌≡◌, refl, sym, ap, ◌∙◌, ◌≢◌,
  inl, inr, Option-cases, true, false, none, some, List, [], ◌∷◌, ◌++◌, All, length, get_elem?,
  take, drop, take_all, drop_all, length-append, take_front, length-take, arith,
}
use toh.Base.Dict.{erase}
use toh.Acl.State.{Acl, StoKey, count_update}
use toh.Acl.Change.{delete_loop, del_key}

-- The stored key has another text.
abbrev pub Differs : Text → StoKey → Type 0
Differs key k = k.key ≢ key

-- No two stored keys have one text.
abbrev pub IsDistinct : List StoKey → Type 0
IsDistinct [] = Unit
IsDistinct (k ∷ rest) = All (Differs k.key) rest × IsDistinct rest

-- The stored keys without those of a text.
unfoldable pub without : Text → List StoKey → List StoKey
without key [] = []
without key (k ∷ rest) =
    let r = without key rest in elim (same k.key key) [ true ↦ r | false ↦ k ∷ r ]

module _ {ℓ} {A : Type ℓ} where
  pub get_elem?_of_drop :
      (xs : List A) (i : ℕ) (x : A) (ys : List A)
      → drop i xs ≡ x ∷ ys
      → (get_elem? xs i ≡ some x) × (drop (suc i) xs ≡ ys) × (take (suc i) xs ≡ take i xs ++ x ∷ [])
  get_elem?_of_drop [] zero x ys h = cc
  get_elem?_of_drop [] (suc i) x ys h = cc
  get_elem?_of_drop (y ∷ xs) zero x ys h = (cc, cc, cc)
  get_elem?_of_drop (y ∷ xs) (suc i) x ys h =
      let (found, rest, front) = get_elem?_of_drop xs i x ys h in (found, rest, cc front)

  drop_step :
      (xs : List A) (i : ℕ) (x : A) → get_elem? xs i ≡ some x → drop i xs ≡ x ∷ drop (suc i) xs
  drop_step [] i x h = cc
  drop_step (y ∷ xs) zero x h = cc
  drop_step (y ∷ xs) (suc i) x h = drop_step xs i x h

  drop-drop : (m n : ℕ) (xs : List A) → drop m (drop n xs) ≡ drop (n + m) xs
  drop-drop m zero xs = rw zero-add
  drop-drop m (suc n) [] = drop_all m [] (omega arith) ∙ sym (drop_all (suc n + m) [] (omega arith))
  drop-drop m (suc n) (x ∷ xs) = rw suc-add (drop-drop m n xs)

  All-append : (P : A → Type 0) (xs ys : List A) → All P xs → All P ys → All P (xs ++ ys)
  All-append P [] ys hx hy = hy
  All-append P (x ∷ xs) ys hx hy = (hx.0, All-append P xs ys hx.1 hy)

  All-drop : (P : A → Type 0) (n : ℕ) (xs : List A) → All P xs → All P (drop n xs)
  All-drop P zero xs h = h
  All-drop P (suc n) [] h = h
  All-drop P (suc n) (x ∷ xs) h = All-drop P n xs h.1

  drop_past : (n : ℕ) (xs ys : List A) → length xs ≡ n → drop (suc n) (xs ++ ys) ≡ drop 1 ys
  drop_past zero [] ys h = refl
  drop_past zero (x ∷ xs) ys h = absurd (omega arith)
  drop_past (suc n) [] ys h = absurd (omega arith)
  drop_past (suc n) (x ∷ xs) ys h = drop_past n xs ys (omega arith)

abbrev pub shift : ℕ → List StoKey → ℕ → List StoKey
shift i arr len = take i arr ++ (drop (suc i) (take len arr) ++ drop (len - 1) arr)

-- The four ways of one round.
module _ (rounds i : ℕ) (key : Text) (arr : List StoKey) (len : ℕ) where
  step_end : get_elem? arr i ≡ none → delete_loop (suc rounds) i key arr len ≡ (false, arr, len)
  unfolding delete_loop
  step_end h = ground arith

  module _ (v : StoKey) (found : get_elem? arr i ≡ some v) where
    pub step_skip :
        v.key ≢ key
        → delete_loop (suc rounds) i key arr len ≡ delete_loop rounds (suc i) key arr len
    unfolding delete_loop
    step_skip h = ground arith

    pub step_panic :
        v.key ≡ key → len ≤ i → delete_loop (suc rounds) i key arr len ≡ (true, arr, len)
    unfolding delete_loop
    step_panic h past = ground arith

    pub step_shift :
        v.key ≡ key
        → i < len
        → delete_loop (suc rounds) i key arr len
          ≡ delete_loop rounds (suc i) key (shift i arr len) (len - 1)
    unfolding delete_loop
    step_shift h inside = ground arith

-- Where no element is left that matches, the loop changes nothing.
delete_loop_none :
    (rounds i : ℕ) (key : Text) (arr : List StoKey) (len : ℕ)
    → All (Differs key) (drop i arr)
    → delete_loop rounds i key arr len ≡ (false, arr, len)
delete_loop_none zero i key arr len h = unfold delete_loop in refl
delete_loop_none (suc r) i key arr len h = elim (Option-cases (get_elem? arr i)) [
  | inl past ↦ step_end r i key arr len past
  | inr (v, found) ↦
      let rest : All (Differs key) (v ∷ drop (suc i) arr) = rw (drop_step arr i v found) at h in
      step_skip r i key arr len v found rest.0 ∙ delete_loop_none r (suc i) key arr len rest.1
]

without-cons_eq :
    (key : Text) (k : StoKey) (l : List StoKey) → k.key ≡ key → without key (k ∷ l) ≡ without key l
unfolding without
without-cons_eq key k l e = ground arith

without-cons_ne :
    (key : Text) (k : StoKey) (l : List StoKey)
    → k.key ≢ key
    → without key (k ∷ l) ≡ k ∷ without key l
unfolding without
without-cons_ne key k l ne = ground arith

without_none : (key : Text) (l : List StoKey) → All (Differs key) l → without key l ≡ l
unfolding without
without_none key [] h = refl
without_none key (k ∷ l) h = ground (arith, without_none key l)

-- The round that finds the key, at `i`, with `rest` behind it, in an array as long as the slice.
module _ (rest : List StoKey) (i : ℕ) (key : Text) (arr : List StoKey) (v : StoKey)
    (here : drop i arr ≡ v ∷ rest) (fits : i + suc (length rest) ≡ length arr) where
  shift_eq : shift i arr (length arr) ≡ take i arr ++ (rest ++ drop (length arr - 1) arr)
  shift_eq =
      let behind = (get_elem?_of_drop arr i v rest here).1 in
      rw (take_all (length arr) arr (omega arith)) (rw behind)

  length-take_i : length (take i arr) ≡ i
  length-take_i = omega (arith, length-take i arr)

  -- The element that stays at the end of the array is the matching one, if that is the last.
  behind-Differs :
      All (Differs key) rest → All (Differs key) (drop (suc i) (shift i arr (length arr)))
  behind-Differs others = rw shift_eq (
      rw (drop_past i (take i arr) (rest ++ drop (length arr - 1) arr) length-take_i)
        (last rest here fits others))
    where
      last :
          (r : List StoKey)
          → drop i arr ≡ v ∷ r
          → i + suc (length r) ≡ length arr
          → All (Differs key) r
          → All (Differs key) (drop 1 (r ++ drop (length arr - 1) arr))
      last [] e f o =
          rw (drop-drop 1 (length arr - 1) arr)
            (rw (drop_all (length arr - 1 + 1) arr (omega arith)) tt)
      last (w ∷ ws) e f o =
          let k = length arr - 1 - suc i in
          let place : length arr - 1 ≡ suc i + k = omega arith in
          let tail : drop (length arr - 1) arr ≡ drop k (w ∷ ws) =
            ap (λ m. drop m arr) place
            ∙ (sym (drop-drop k (suc i) arr)
                ∙ ap (drop k) (get_elem?_of_drop arr i v (w ∷ ws) e).1) in
          All-append (Differs key) ws (drop (length arr - 1) arr) o.1
            (rw tail (All-drop (Differs key) k (w ∷ ws) o))

  take-shift : take (length arr - 1) (shift i arr (length arr)) ≡ take i arr ++ rest
  take-shift = rw shift_eq (
      rw (← append_assoc (take i arr) rest (drop (length arr - 1) arr)) (
        take_front (length arr - 1) (take i arr ++ rest) (drop (length arr - 1) arr)
          (omega (arith, length-append (take i arr) rest, length-take_i))))

  delete_loop_found :
      v.key ≡ key
      → All (Differs key) rest
      → let (panicked, arr', len') = delete_loop (suc (length rest)) i key arr (length arr) in
        (panicked ≡ false) × (take len' arr' ≡ take i arr ++ rest)
  delete_loop_found match others =
      rw
        (step_shift (length rest) i key arr (length arr) v (get_elem?_of_drop arr i v rest here).0
          match (omega arith))
        (rw
          (delete_loop_none (length rest) (suc i) key (shift i arr (length arr)) (length arr - 1)
            (behind-Differs others))
          (refl, take-shift))

-- From index `i` on, with no two keys alike: the loop removes the key and does not panic.
delete_loop_distinct :
    (rest : List StoKey) (i : ℕ) (key : Text) (arr : List StoKey)
    → drop i arr ≡ rest
    → IsDistinct rest
    → i + length rest ≡ length arr
    → let (panicked, arr', len') = delete_loop (length rest) i key arr (length arr) in
      (panicked ≡ false) × (take len' arr' ≡ take i arr ++ without key rest)
delete_loop_distinct [] i key arr here distinct fits =
    unfold delete_loop without in (refl, rw append-nil (ap (λ m. take m arr) (omega arith)))
delete_loop_distinct (v ∷ rest) i key arr here distinct fits =
    let (found, behind, front) = get_elem?_of_drop arr i v rest here in
    elim (Text-discrete v.key key) [
      | yes e ↦
          let others : All (Differs key) rest = subst (λ t. All (Differs t) rest) e distinct.0 in
          rw (without-cons_eq key v rest e) (
            rw (without_none key rest others)
              (delete_loop_found rest i key arr v here fits e others))
      | no ne ↦
          let ih = delete_loop_distinct rest (suc i) key arr behind distinct.1 (omega arith) in
          rw (step_skip (length rest) i key arr (length arr) v found ne) (
            ih.0,
            ih.1
                ∙ (ap (λ xs. xs ++ without key rest) front
                    ∙ (append_assoc (take i arr) (v ∷ []) (without key rest)
                        ∙ ap (λ xs. take i arr ++ xs) (sym (without-cons_ne key v rest ne)))),
          )
    ]

-- If no two stored keys are alike, `DelKey` does not panic; it takes the key out of the map and out
-- of the list, leaves all others where they are, and counts one update.
pub del_key_distinct :
    (key : Text) (a : Acl)
    → IsDistinct a.sto_keys
    → del_key key a ≡ (
      false,
      count_update (record a { keys = erase key a.keys; sto_keys = without key a.sto_keys }),
    )
unfolding del_key
del_key_distinct key a distinct =
    let (calm, kept) =
      delete_loop_distinct a.sto_keys 0 key a.sto_keys refl distinct (omega arith) in
    cc (calm, kept)
