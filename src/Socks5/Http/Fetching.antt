-- ===== src/Socks5/Http/Fetching.antt =====
-- The reader of socks5/http.go has enough fuel: what is left on the connection goes down with every
-- read.
use toh.Base.{
  subst, ◌⊎◌, ℕ, zero, suc, ◌+◌, ◌≤◌, ◌<◌, Text, ◌≡◌, refl, Option, none, some, Option-cases, inl,
  inr, List, [], ◌∷◌, ◌++◌, length, drop, length-append, length-take, length-drop, arith, All,
}
use toh.Socks5.Handshake.{push, read}
use toh.Socks5.Http.{
  Wrapper, wrapper_read, Parse, parsed, malformed, incomplete, Reader, Fetched, fetched, at_end,
  failed, out_of_fuel, ended, fetch,
}
use toh.Socks5.Http.Replay.{flat, flat-push}

-- No segment is empty.
abbrev pub Arrives : List Text → Type 0
Arrives = All (λ s. 0 < length s)

-- The bytes, and the reads without bytes, that a connection has still to give.
abbrev held_size : Option Text → ℕ
held_size none = 0
held_size (some b) = suc (length b)

abbrev pub pending : Wrapper → ℕ
pending w = held_size w.b + length (flat w.conn.incoming)

pub Arrives-push : (s : Text) (ss : List Text) → Arrives ss → Arrives (push s ss)
Arrives-push [] ss h = h
Arrives-push (b ∷ s) ss h = (omega arith, h)

-- What one read of the reader does to the bytes to come.
abbrev Shrinks : Wrapper → Option Text × Wrapper → Type 0
Shrinks w (none, w') = (pending w' ≤ pending w) × Arrives w'.conn.incoming
Shrinks w (some bytes, w') =
    (length bytes + pending w' ≤ pending w) × (pending w' < pending w) × Arrives w'.conn.incoming

io_Shrinks :
    (n : ℕ) (w : Wrapper) (l : List Text)
    → w.b ≡ none
    → w.conn.incoming ≡ l
    → Arrives l
    → Shrinks w (wrapper_read (suc n) w)
unfolding wrapper_read read
io_Shrinks n w [] none_held e h = ground arith
io_Shrinks n w (s ∷ ss) none_held e h =
    let kept = Arrives-push (drop (suc n) s) ss h.1 in
    ground (
      arith,
      flat-push (drop (suc n) s) ss,
      length-append s (flat ss),
      length-append (drop (suc n) s) (flat ss),
      length-take (suc n) s,
      length-drop (suc n) s,
    )

wrapper_read-Shrinks :
    (n : ℕ) (w : Wrapper) → Arrives w.conn.incoming → Shrinks w (wrapper_read (suc n) w)
unfolding wrapper_read
wrapper_read-Shrinks n w h = elim (Option-cases w.b) [
  | inl none_held ↦ io_Shrinks n w w.conn.incoming none_held refl h
  | inr (b, some_held) ↦
      rw (some_held, wrapper_read) (ground (arith, length-take (suc n) b, length-drop (suc n) b))
]

abbrev pub total : Reader → ℕ
total r = length r.buffered + pending r.conn

-- A parser takes at least one byte of what it parses.
abbrev pub Takes : {A : Type 0} → (Text → Parse A) → Type 0
Takes {A} parse =
    (s : Text) (a : A) (rest : Text) → parse s ≡ parsed a rest → length rest < length s

-- The fuel has been enough, and where a parser that takes bytes has a result, bytes have gone.
abbrev pub IsFetched : {A : Type 0} → (Text → Parse A) → Reader → Fetched A × Reader → Type 0
IsFetched parse r (fetched a, r') =
    (Takes parse → total r' < total r) × Arrives r'.conn.conn.incoming
IsFetched parse r (at_end, r') = (total r' ≤ total r) × Arrives r'.conn.conn.incoming
IsFetched parse r (failed e, r') = (total r' ≤ total r) × Arrives r'.conn.conn.incoming
IsFetched parse r (out_of_fuel, r') = ⊥

IsFetched-weaken :
    {A : Type 0} (parse : Text → Parse A) (r s : Reader) (x : Fetched A × Reader)
    → total s ≤ total r
    → IsFetched parse s x
    → IsFetched parse r x
IsFetched-weaken parse r s (fetched a, r') le (less, h) = ((λ t. omega (arith, less t)), h)
IsFetched-weaken parse r s (at_end, r') le h = (omega arith, h.1)
IsFetched-weaken parse r s (failed e, r') le h = (omega arith, h.1)
IsFetched-weaken parse r s (out_of_fuel, r') le h = h

ended-IsFetched :
    {A : Type 0} (parse : Text → Parse A) (r r' : Reader)
    → total r' ≤ total r
    → Arrives r'.conn.conn.incoming
    → IsFetched parse r (ended r.buffered, r')
ended-IsFetched parse r r' le h = ground arith

Parse-cases :
    {A : Type 0} (p : Parse A)
    → ((room : ℕ) × (p ≡ incomplete room))
      ⊎ ((e : Text) × (p ≡ malformed e))
      ⊎ ((a : A) × (rest : Text) × (p ≡ parsed a rest))
Parse-cases (incomplete room) = inl (room, refl)
Parse-cases (malformed e) = inr (inl (e, refl))
Parse-cases (parsed a rest) = inr (inr (a, rest, refl))

pub fetch-IsFetched :
    {A : Type 0} (parse : Text → Parse A) (fuel : ℕ) (r : Reader)
    → Arrives r.conn.conn.incoming
    → pending r.conn < fuel
    → IsFetched parse r (fetch parse fuel r)
unfolding fetch
fetch-IsFetched parse zero r h enough = absurd (omega arith)
fetch-IsFetched parse (suc fuel) r h enough = elim (Parse-cases (parse r.buffered)) [
  | inr (inl (e, wrong)) ↦ rw (wrong, fetch) (omega arith, h)
  | inr (inr (a, rest, done)) ↦ rw (done, fetch) ((λ t. omega (arith, t r.buffered a rest done)), h)
  | inl (room, more) ↦
      let shrinks = wrapper_read-Shrinks room r.conn h in
      let w = (wrapper_read (suc room) r.conn).1 in
      elim (Option-cases (wrapper_read (suc room) r.conn).0) [
        | inl over ↦
            let (le, kept) : Shrinks r.conn (none, w) =
              subst (λ o. Shrinks r.conn (o, w)) over shrinks in
            rw (more, fetch)
              (rw over (ended-IsFetched parse r (record r { conn = w }) (omega arith) kept))
        | inr (bytes, got) ↦
            let (le, lt, kept) : Shrinks r.conn (some bytes, w) =
              subst (λ o. Shrinks r.conn (o, w)) got shrinks in
            let next : Reader = record { buffered = r.buffered ++ bytes; conn = w } in
            rw (more, fetch)
              (rw got (
                IsFetched-weaken parse r next (fetch parse fuel next)
                  (omega (arith, length-append r.buffered bytes))
                  (fetch-IsFetched parse fuel next kept (omega arith))))
      ]
]
