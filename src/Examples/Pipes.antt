-- ===== src/Examples/Pipes.antt =====
-- The theorems on the pipe engine at one event and one pair of connections.
use toh.Base.{ℕ, ◌+◌, ◌≤◌, ◌≡◌, refl, text, Bool, true, false, [], ◌∷◌, length, arith}
use toh.Spec.Pipe.{
  TrafficEvent, capacity, Engine, ChannelStep, Piping, started, ended, moves_up, stops_up, ends_up,
}
use toh.Spec.Pipe.Delivery.{Run, here, sent, Run_drains, Run_blocks}
use toh.Spec.Pipe.Copies.{Reach, start, next, Reported, Reach-Reported}

abbrev event : TrafficEvent
event = record { network = text "tcp"; local_addr = text "a:1"; in_bytes = 3; out_bytes = 4 }

-- An engine with a consumer that adds up the bytes, and one that counts the events.
abbrev engine : Engine ℕ
engine = record {
  consumers = (λ e n. n + e.in_bytes + e.out_bytes) ∷ (λ e n. n + 1) ∷ [];
  event_chan = [];
  world = 0;
}

abbrev with_event : Engine ℕ
with_event = record engine { event_chan = event ∷ [] }

one_sent : (looping : Bool) → Run looping engine (event ∷ []) [] with_event
one_sent looping = sent here event (omega arith)

Run_drains_example :
    (u : Engine ℕ) × Run true engine (event ∷ []) (event ∷ []) u
    × (u.event_chan ≡ [])
    × (u.world ≡ 8)
Run_drains_example = Run_drains (one_sent true) refl

Run_blocks_example :
    (with_event.world ≡ 0)
    × (length (event ∷ []) ≤ capacity)
    × (length (event ∷ []) ≡ capacity → (u : Engine ℕ) → ¬ ChannelStep false with_event u)
Run_blocks_example = Run_blocks (one_sent false) refl

abbrev moved : Piping
moved = record started { lbc = 3; up = ended; r_conn_closed = true }

Reach-moved : Reach (text "a:1") moved
Reach-moved =
    next (next (next start (moves_up 3 refl refl)) (stops_up refl refl)) (ends_up refl refl)

Reach-Reported_example : Reported (text "a:1") moved
Reach-Reported_example = Reach-Reported Reach-moved
