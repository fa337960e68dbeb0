-- ===== src/Spec/Pipe.antt =====
-- The pipe engine of spec/pipe.go: pairs of connections, a channel of traffic events, and the loop that
-- hands them to the consumers.
pub mod Delivery
pub mod Copies
use toh.Base.{
  ℕ, ◌+◌, ◌<◌, Text, text, ◌≡◌, Bool, true, false, Option, none, some, List, [], ◌∷◌, ◌++◌, length,
}

-- The counts are int64 numbers that no copy reaches the end of.
pub record TrafficEvent : Type 0 where
  pub network : Text
  pub local_addr : Text
  pub in_bytes : ℕ
  pub out_bytes : ℕ

-- The capacity of the channel.
abbrev pub capacity : ℕ
capacity = 4096

-- `W` is what the consumers change.
pub record Engine (W : Type 0) : Type 0 where
  pub consumers : List (TrafficEvent → W → W)
  pub event_chan : List TrafficEvent
  pub world : W

module _ {W : Type 0} where
  unfoldable pub new_pipe_engine : W → Engine W
  new_pipe_engine w = record { consumers = []; event_chan = []; world = w }

  unfoldable pub add_event_consumer : (TrafficEvent → W → W) → Engine W → Engine W
  add_event_consumer c s = record s { consumers = s.consumers ++ c ∷ [] }

  -- One round of `RunTrafficEventConsumeLoop`, for an event: every consumer gets it.
  abbrev pub notify : List (TrafficEvent → W → W) → TrafficEvent → W → W
  notify [] e w = w
  notify (c ∷ cs) e w = notify cs e (c e w)

  -- What the goroutines do to the channel: a send waits while it is full, and the loop, where it
  -- has been started, takes the oldest event.
  pub data ChannelStep (looping : Bool) (s t : Engine W) : Type 0 where
    sends :
        (e : TrafficEvent)
        → length s.event_chan < capacity
        → t ≡ record s { event_chan = s.event_chan ++ e ∷ [] }
        → ChannelStep looping s t
    consumes :
        (e : TrafficEvent) (rest : List TrafficEvent)
        → looping ≡ true
        → s.event_chan ≡ e ∷ rest
        → t ≡ record s { event_chan = rest; world = notify s.consumers e s.world }
        → ChannelStep looping s t

-- Whether one of the two copies of `Pipe` is still going on, is over, or has closed its connection too.
pub data CopyState : Type 0 where
  copying copied ended : CopyState

-- One call of `Pipe` on two connections, neither of them nil (it returns at once otherwise): how
-- far the copies are, what they have moved, and which connections it has closed.
pub record Piping : Type 0 where
  pub lbc : ℕ
  pub rbc : ℕ
  pub up : CopyState
  pub down : CopyState
  pub conn_closed : Bool
  pub r_conn_closed : Bool
  pub reported : Option TrafficEvent

abbrev pub started : Piping
started = record {
  lbc = 0;
  rbc = 0;
  up = copying;
  down = copying;
  conn_closed = false;
  r_conn_closed = false;
  reported = none;
}

-- The goroutine copies from `rConn` to `conn`, the caller from `conn` to `rConn`; the event is sent
-- when both have ended. `remote_addr` is the text of `conn.RemoteAddr()`.
pub data PipeStep (remote_addr : Text) (p q : Piping) : Type 0 where
  moves_up : (n : ℕ) → p.up ≡ copying → q ≡ record p { lbc = p.lbc + n } → PipeStep remote_addr p q
  moves_down :
      (n : ℕ) → p.down ≡ copying → q ≡ record p { rbc = p.rbc + n } → PipeStep remote_addr p q
  stops_up : p.up ≡ copying → q ≡ record p { up = copied } → PipeStep remote_addr p q
  stops_down : p.down ≡ copying → q ≡ record p { down = copied } → PipeStep remote_addr p q
  ends_up :
      p.up ≡ copied → q ≡ record p { up = ended; r_conn_closed = true } → PipeStep remote_addr p q
  ends_down :
      p.down ≡ copied → q ≡ record p { down = ended; conn_closed = true } → PipeStep remote_addr p q
  reports :
      p.up ≡ ended
      → p.down ≡ ended
      → p.reported ≡ none
      → q ≡ record p {
        reported = some (record {
          network = text "tcp";
          local_addr = remote_addr;
          in_bytes = p.lbc;
          out_bytes = p.rbc;
        });
      }
      → PipeStep remote_addr p q
