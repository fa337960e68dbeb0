-- ===== src/Spec/Conn/Reassembly.antt =====
-- Reading through `Conn` of spec/spec.go loses, repeats and reorders nothing.
use mathlib.Core.List.{append_assoc, append-nil}
use toh.Base.{
  ℕ, Text, ◌≡◌, refl, sym, ap, ◌∙◌, Option, none, some, Option-cases, inl, inr, List, [], ◌∷◌, ◌++◌,
  length, take, drop, take_all, take-append-drop, length-take, Bool-cases, ltb, Result, ok, err,
  arith,
}
use toh.Spec.Conn.{StreamConn, Conn, ReadError, finish_read, read, left_over}

abbrev pub received : Result ReadError Text → Text
received (ok b) = b
received (err _) = []

abbrev pub buffered : Option Text → Text
buffered none = []
buffered (some b) = b

left_over_lem : (S : StreamConn) (n : ℕ) (b : Text) → take n b ++ buffered (left_over S n b) ≡ b
left_over_lem S n b = elim (Bool-cases (ltb (length (take n b)) (length b))) [
  | inl more ↦ rw more (take-append-drop n b)
  | inr all ↦ rw all (rw append-nil (take_all n b (ground (arith, length-take n b))))
]

-- A stream whose state stands for the bytes that are still to come: a message that is read is their
-- beginning, and an error takes none of them.
module _ (S : StreamConn) (to_come : S.State → Text)
    (delivers : (d : Option ℕ) (s : S.State) (m : Text) (s' : S.State)
      → S.read d s ≡ (ok m, s')
      → to_come s ≡ m ++ to_come s')
    (keeps : (d : Option ℕ) (s : S.State) (e : Text) (s' : S.State)
      → S.read d s ≡ (err e, s')
      → to_come s ≡ to_come s') where
  -- The bytes that the reader has not had yet.
  abbrev pub unread : Conn S → Text
  unread c = buffered c.buf ++ to_come c.conn

  -- One `Read` after the other, with buffers of these sizes: the bytes that came out.
  pub reads : List ℕ → Conn S → Text × Conn S
  reads [] c = ([], c)
  reads (n ∷ ns) c =
      let (r, c₁) = read S n c in let (bytes, c₂) = reads ns c₁ in (received r ++ bytes, c₂)

  finish_read-unread :
      (n : ℕ) (c : Conn S) (r : Result Text Text) (s : S.State)
      → c.buf ≡ none
      → S.read c.read_deadline c.conn ≡ (r, s)
      → let (out, c') = finish_read S n c (r, s) in received out ++ unread c' ≡ unread c
  unfolding finish_read
  finish_read-unread n c (err e) s empty answer =
      ap (λ t. buffered c.buf ++ t) (sym (keeps c.read_deadline c.conn e s answer))
  finish_read-unread n c (ok m) s empty answer =
      let whole : unread c ≡ m ++ to_come s =
        ap (λ o. buffered o ++ to_come c.conn) empty ∙ delivers c.read_deadline c.conn m s answer in
      elim (Bool-cases (ltb (length (take n m)) (length m))) [
        | inl more ↦ rw more (
            sym (append_assoc (take n m) (drop n m) (to_come s))
            ∙ (ap (λ t. t ++ to_come s) (take-append-drop n m) ∙ sym whole))
        | inr all ↦
            let taken : take n m ≡ m = take_all n m (ground (arith, length-take n m)) in
            rw all (
              ap (λ o. take n m ++ (buffered o ++ to_come s)) empty
              ∙ (ap (λ t. t ++ to_come s) taken ∙ sym whole))
      ]

  read-unread :
      (n : ℕ) (c : Conn S) → let (r, c') = read S n c in received r ++ unread c' ≡ unread c
  unfolding read
  read-unread n c = elim (Option-cases c.buf) [
    | inl empty ↦
        rw (empty, read)
          (finish_read-unread n c (S.read c.read_deadline c.conn).0
              (S.read c.read_deadline c.conn).1 empty refl
            ∙ ap (λ o. buffered o ++ to_come c.conn) empty)
    | inr (b, full) ↦
        rw (full, read)
          (sym (append_assoc (take n b) (buffered (left_over S n b)) (to_come c.conn))
            ∙ ap (λ t. t ++ to_come c.conn) (left_over_lem S n b))
  ]

  -- Over a stream of which a message that is read is the beginning of the bytes to come, and an error
  -- takes none of them: whatever the sizes of the buffers, what comes out of `Read` and then what is
  -- still unread are together what was unread before, in order.
  pub reads-unread :
      (ns : List ℕ) (c : Conn S) → let (bytes, c') = reads ns c in bytes ++ unread c' ≡ unread c
  unfolding reads
  reads-unread [] c = refl
  reads-unread (n ∷ ns) c =
      let (r, c₁) = read S n c in
      let (bytes, c₂) = reads ns c₁ in
      append_assoc (received r) bytes (unread c₂)
      ∙ (ap (λ t. received r ++ t) (reads-unread ns c₁) ∙ read-unread n c)
