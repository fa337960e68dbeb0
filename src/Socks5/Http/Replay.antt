-- ===== src/Socks5/Http/Replay.antt =====
-- Reading through the wrapper of socks5/http.go: first the bytes that were read before, then those of
-- the connection.
use mathlib.Core.List.{append_assoc, append-nil}
use toh.Base.{
  if◌then◌else◌, ℕ, zero, suc, Text, ◌≡◌, refl, sym, ap, ◌∙◌, Option, none, some, Option-cases, inl,
  inr, List, [], ◌∷◌, ◌++◌, length, take, drop, take_all, take-append-drop, length-take, Bool-cases,
  ltb, arith,
}
use toh.Socks5.Handshake.{Io, push, read}
use toh.Socks5.Http.{Wrapper, wrapper_read}

abbrev pub flat : List Text → Text
flat [] = []
flat (s ∷ ss) = s ++ flat ss

abbrev pub held : Option Text → Text
held none = []
held (some b) = b

pub flat-push : (s : Text) (ss : List Text) → flat (push s ss) ≡ s ++ flat ss
flat-push [] ss = refl
flat-push (b ∷ s) ss = refl

read_flat :
    (n : ℕ) (io : Io) → let (r, io') = read n io in held r ++ flat io'.incoming ≡ flat io.incoming
unfolding read
read_flat zero io = refl
read_flat (suc n) io = split io.incoming refl
  where
    split :
        (l : List Text)
        → io.incoming ≡ l
        → let (r, io') = read (suc n) io in held r ++ flat io'.incoming ≡ flat io.incoming
    split [] e = ground arith
    split (s ∷ ss) e = ground (
      arith,
      flat-push (drop (suc n) s) ss,
      append_assoc (take (suc n) s) (drop (suc n) s) (flat ss),
      take-append-drop (suc n) s,
    )

-- What the reader of the wrapper has not had yet.
abbrev pub unread : Wrapper → Text
unread c = held c.b ++ flat c.conn.incoming

-- One read after the other, with buffers of these sizes: the bytes that came out.
wrapper_reads : List ℕ → Wrapper → Text × Wrapper
wrapper_reads [] c = ([], c)
wrapper_reads (n ∷ ns) c =
    let (r, c₁) = wrapper_read n c in let (bytes, c₂) = wrapper_reads ns c₁ in (held r ++ bytes, c₂)

rest_held :
    (n : ℕ) (b : Text)
    → take n b ++ held (if ltb (length (take n b)) (length b) then some (drop n b) else none) ≡ b
rest_held n b = elim (Bool-cases (ltb (length (take n b)) (length b))) [
  | inl more ↦ rw more (take-append-drop n b)
  | inr all ↦ rw all (rw append-nil (take_all n b (ground (arith, length-take n b))))
]

wrapper_read-unread :
    (n : ℕ) (c : Wrapper) → let (r, c') = wrapper_read n c in held r ++ unread c' ≡ unread c
unfolding wrapper_read
wrapper_read-unread n c = elim (Option-cases c.b) [
  | inl none_held ↦ rw (none_held, wrapper_read) (ground (arith, read_flat n c.conn))
  | inr (b, some_held) ↦
      rw (some_held, wrapper_read)
        (sym (append_assoc (take n b) _ (flat c.conn.incoming))
          ∙ ap (λ t. t ++ flat c.conn.incoming) (rest_held n b))
]

-- Whatever the sizes of the buffers, what comes out of the wrapper and then what is still unread are
-- together the bytes that were read before and those of the connection, in order.
wrapper_reads-unread :
    (ns : List ℕ) (c : Wrapper)
    → let (bytes, c') = wrapper_reads ns c in bytes ++ unread c' ≡ unread c
unfolding wrapper_reads
wrapper_reads-unread [] c = refl
wrapper_reads-unread (n ∷ ns) c =
    let (r, c₁) = wrapper_read n c in
    let (bytes, c₂) = wrapper_reads ns c₁ in
    append_assoc (held r) bytes (unread c₂)
    ∙ (ap (λ t. held r ++ t) (wrapper_reads-unread ns c₁) ∙ wrapper_read-unread n c)
