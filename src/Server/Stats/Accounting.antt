-- ===== src/Server/Stats/Accounting.antt =====
-- What keys are charged by the loop of server/stats.go.
use toh.Base.{
  ℕ, ◌+◌, ◌%◌, ◌<◌, ◌&&◌, Text, same, ◌≡◌, ◌∙◌, Bool-cases, Option-cases, inl, inr, some, List, [],
  ◌∷◌, ◌==◌, if◌then◌else◌, arith,
}
use toh.Base.Dict.{lookup}
use toh.Base.Words.{modulus64}
use toh.Api.{BytesUsage}
use toh.Acl.State.{Acl, Key}
use toh.Acl.Change.{update_bytes_usage}
use toh.Acl.Isolation.{IsSound, step-IsSound_used}
use toh.Server.Stats.{TrafficEvent, consume_event, run_traffic_event_consume_loop}

-- What the events say about one key.
abbrev pub total_in : Text → List TrafficEvent → ℕ
total_in key [] = 0
total_in key (e ∷ es) = (if same e.key key then e.in_bytes else 0) + total_in key es

abbrev pub total_out : Text → List TrafficEvent → ℕ
total_out key [] = 0
total_out key (e ∷ es) = (if same e.key key then e.out_bytes else 0) + total_out key es

-- A counter after more traffic.
abbrev pub charged : BytesUsage → ℕ → ℕ → BytesUsage
charged u received sent = record {
  in_bytes = (u.in_bytes + received) % modulus64;
  out_bytes = (u.out_bytes + sent) % modulus64;
}

charged_zero :
    (u : BytesUsage) → u.in_bytes < modulus64 → u.out_bytes < modulus64 → u ≡ charged u 0 0
charged_zero u hi ho = ground arith

charged-charged :
    (u : BytesUsage) (p q r s : ℕ) → charged (charged u p q) r s ≡ charged u (p + r) (q + s)
charged-charged u p q r s = ground arith

consume-IsSound : (e : TrafficEvent) (a : Acl) → IsSound a → IsSound (consume_event e a)
unfolding consume_event
consume-IsSound e a h = elim (Bool-cases (e.in_bytes == 0 && e.out_bytes == 0)) [
  | inl idle ↦ rw (idle, consume_event) h
  | inr busy ↦ rw (busy, consume_event) (step-IsSound_used e.key e.in_bytes e.out_bytes a h)
]

module _ (key : Text) (k : Key) where
  -- The key is live, and its counter stands at `u`.
  abbrev pub Stands : BytesUsage → Acl → Type 0
  Stands u a = (lookup key a.keys ≡ some k) × (a.cells k.bytes_usage ≡ u)

  update-Stands :
      (j : Text) (r s : ℕ) (a : Acl) (u : BytesUsage)
      → IsSound a
      → u.in_bytes < modulus64
      → u.out_bytes < modulus64
      → Stands u a
      → Stands
          (charged u (if same j key then r else 0) (if same j key then s else 0))
          (update_bytes_usage j r s a)
  unfolding update_bytes_usage
  update-Stands j r s a u h hi ho there = elim (Option-cases (lookup j a.keys)) [
    | inl missing ↦ ground arith
    | inr (m, found) ↦ ground (arith, h.apart j key m k)
  ]

  consume-Stands :
      (e : TrafficEvent) (a : Acl) (u : BytesUsage)
      → IsSound a
      → u.in_bytes < modulus64
      → u.out_bytes < modulus64
      → Stands u a
      → Stands
          (charged u
            (if same e.key key then e.in_bytes else 0)
            (if same e.key key then e.out_bytes else 0))
          (consume_event e a)
  unfolding consume_event
  consume-Stands e a u h hi ho there = elim (Bool-cases (e.in_bytes == 0 && e.out_bytes == 0)) [
    | inl idle ↦ rw (idle, consume_event) (ground arith)
    | inr busy ↦
        rw (busy, consume_event) (update-Stands e.key e.in_bytes e.out_bytes a u h hi ho there)
  ]

  -- Where no two live keys share a counter, and none lies among the free addresses: after any
  -- events a live key's counter has gone up, modulo 2 ^ 64, by exactly what the events for that key
  -- add up to, in each direction.
  pub consume_charges :
      (es : List TrafficEvent) (a : Acl) (u : BytesUsage)
      → IsSound a
      → u.in_bytes < modulus64
      → u.out_bytes < modulus64
      → Stands u a
      → Stands
          (charged u (total_in key es) (total_out key es))
          (run_traffic_event_consume_loop es a)
  unfolding run_traffic_event_consume_loop
  consume_charges [] a u h hi ho there = (there.0, there.1 ∙ charged_zero u hi ho)
  consume_charges (e ∷ es) a u h hi ho there =
      let p = if same e.key key then e.in_bytes else 0 in
      let q = if same e.key key then e.out_bytes else 0 in
      let (found, counter) =
        consume_charges es (consume_event e a) (charged u p q) (consume-IsSound e a h) (omega arith)
          (omega arith) (consume-Stands e a u h hi ho there) in
      (found, counter ∙ charged-charged u p q (total_in key es) (total_out key es))
