-- ===== src/Spec/Pipe/Copies.antt =====
-- The states that `Pipe` of spec/pipe.go passes through.
use toh.Base.{Text, text, ◌≡◌, refl, sym, ◌∙◌, subst, true, Option, none, some}
use toh.Spec.Pipe.{
  TrafficEvent, Piping, started, CopyState, copying, copied, ended, PipeStep, moves_up, moves_down,
  stops_up, stops_down, ends_up, ends_down, reports,
}

-- The states that a call of `Pipe` reaches.
pub data Reach (remote_addr : Text) : Piping → Type 0 where
  start : Reach remote_addr started
  next : {p q : Piping} → Reach remote_addr p → PipeStep remote_addr p q → Reach remote_addr q

-- A copy that has ended has closed the connection it wrote to, and the event says what the copies have
-- moved.
abbrev pub Reported : Text → Piping → Type 0
Reported remote_addr p =
    (p.up ≡ ended → p.r_conn_closed ≡ true)
    × (p.down ≡ ended → p.conn_closed ≡ true)
    × ((e : TrafficEvent)
        → p.reported ≡ some e
        → (p.up ≡ ended)
          × (p.down ≡ ended)
          × (e ≡ record {
            network = text "tcp";
            local_addr = remote_addr;
            in_bytes = p.lbc;
            out_bytes = p.rbc;
          }))

PipeStep-Reported :
    {remote_addr : Text} {p q : Piping}
    → Reported remote_addr p
    → PipeStep remote_addr p q
    → Reported remote_addr q
PipeStep-Reported {remote_addr} {p} {q} (r_closed, closed, event) (moves_up n going step) =
    subst (λ s. Reported remote_addr s) (sym step)
      (r_closed, closed, λ e found. let (was_up, was_down, same) = event e found in cc)
PipeStep-Reported {remote_addr} {p} {q} (r_closed, closed, event) (moves_down n going step) =
    subst (λ s. Reported remote_addr s) (sym step)
      (r_closed, closed, λ e found. let (was_up, was_down, same) = event e found in cc)
PipeStep-Reported {remote_addr} {p} {q} (r_closed, closed, event) (stops_up going step) =
    subst (λ s. Reported remote_addr s) (sym step)
      ((λ h. cc h), closed, λ e found. let (was_up, was_down, same) = event e found in cc)
PipeStep-Reported {remote_addr} {p} {q} (r_closed, closed, event) (stops_down going step) =
    subst (λ s. Reported remote_addr s) (sym step)
      (r_closed, (λ h. cc h), λ e found. let (was_up, was_down, same) = event e found in cc)
PipeStep-Reported {remote_addr} {p} {q} (r_closed, closed, event) (ends_up going step) =
    subst (λ s. Reported remote_addr s) (sym step)
      ((λ _. refl), closed, λ e found. let (was_up, was_down, same) = event e found in cc)
PipeStep-Reported {remote_addr} {p} {q} (r_closed, closed, event) (ends_down going step) =
    subst (λ s. Reported remote_addr s) (sym step)
      (r_closed, (λ _. refl), λ e found. let (was_up, was_down, same) = event e found in cc)
PipeStep-Reported {remote_addr} {p} {q} (r_closed, closed, event) (reports up down first step) =
    subst (λ s. Reported remote_addr s) (sym step)
      (r_closed, closed, λ e found. (up, down, cc found))

-- In every state that a call of `Pipe` reaches: a copy that has ended has closed the connection it
-- wrote to; and where the event has been reported, both copies have ended and both connections are
-- closed, and the event has the text of the connection's remote address and all the bytes that the
-- two copies moved.
pub Reach-Reported :
    {remote_addr : Text} {p : Piping} → Reach remote_addr p → Reported remote_addr p
Reach-Reported start = ((λ h. cc h), (λ h. cc h), λ e found. cc found)
Reach-Reported (next r step) = PipeStep-Reported (Reach-Reported r) step

-- A state that is reached from `p` without moving a byte.
record After (remote_addr : Text) (p : Piping) : Type 0 where
  later : Piping
  reached : Reach remote_addr later
  same_lbc : later.lbc ≡ p.lbc
  same_rbc : later.rbc ≡ p.rbc

finish_up :
    {remote_addr : Text} {p : Piping}
    → Reach remote_addr p
    → (c : CopyState) → p.up ≡ c
    → (a : After remote_addr p) × (a.later.up ≡ ended)
finish_up {p} r copying going = (
  record {
    later = _;
    reached = next (next r (stops_up going refl)) (ends_up refl refl);
    same_lbc = refl;
    same_rbc = refl;
  },
  refl,
)
finish_up {p} r copied over = (
  record { later = _; reached = next r (ends_up over refl); same_lbc = refl; same_rbc = refl },
  refl,
)
finish_up {p} r ended done =
    (record { later = p; reached = r; same_lbc = refl; same_rbc = refl }, done)

finish_down :
    {remote_addr : Text} {p : Piping}
    → Reach remote_addr p
    → p.up ≡ ended
    → (c : CopyState) → p.down ≡ c
    → (a : After remote_addr p) × (a.later.up ≡ ended) × (a.later.down ≡ ended)
finish_down {p} r up copying going = (
  record {
    later = _;
    reached = next (next r (stops_down going refl)) (ends_down refl refl);
    same_lbc = refl;
    same_rbc = refl;
  },
  up,
  refl,
)
finish_down {p} r up copied over = (
  record { later = _; reached = next r (ends_down over refl); same_lbc = refl; same_rbc = refl },
  up,
  refl,
)
finish_down {p} r up ended done =
    (record { later = p; reached = r; same_lbc = refl; same_rbc = refl }, up, done)

report :
    {remote_addr : Text} {p : Piping}
    → Reach remote_addr p
    → p.up ≡ ended
    → p.down ≡ ended
    → (o : Option TrafficEvent) → p.reported ≡ o
    → (a : After remote_addr p) × (e : TrafficEvent) × (a.later.reported ≡ some e)
report {p} r up down none first = (
  record {
    later = _;
    reached = next r (reports up down first refl);
    same_lbc = refl;
    same_rbc = refl;
  },
  _,
  refl,
)
report {p} r up down (some e) found =
    (record { later = p; reached = r; same_lbc = refl; same_rbc = refl }, e, found)

-- From every state that a call of `Pipe` reaches, it reaches one in which its event has been reported,
-- with the bytes that had been moved.
Reach-reports :
    {remote_addr : Text} {p : Piping}
    → Reach remote_addr p
    → (q : Piping) × (e : TrafficEvent) × Reach remote_addr q
      × (q.reported ≡ some e)
      × (q.lbc ≡ p.lbc)
      × (q.rbc ≡ p.rbc)
Reach-reports {p} r =
    let (a, up) = finish_up r p.up refl in
    let (b, still_up, down) = finish_down a.reached up a.later.down refl in
    let (c, e, found) = report b.reached still_up down b.later.reported refl in
    (
      c.later,
      e,
      c.reached,
      found,
      c.same_lbc ∙ b.same_lbc ∙ a.same_lbc,
      c.same_rbc ∙ b.same_rbc ∙ a.same_rbc,
    )
