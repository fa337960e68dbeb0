-- ===== src/Server/Stats.antt =====
-- The loop of server/stats.go that charges traffic to keys.
pub mod Accounting
use toh.Base.{ℕ, Text, ◌&&◌, List, [], ◌∷◌, ◌==◌, if◌then◌else◌}
use toh.Acl.State.{Acl}
use toh.Acl.Change.{update_bytes_usage}

-- The counts are the bit patterns of int64 numbers, which `uint64(…)` keeps.
pub record TrafficEvent : Type 0 where
  pub key : Text
  pub client_ip : Text
  pub network : Text
  pub in_bytes : ℕ
  pub out_bytes : ℕ

-- One round: what is logged has no effect on the list.
unfoldable pub consume_event : TrafficEvent → Acl → Acl
consume_event e a =
    if e.in_bytes == 0 && e.out_bytes == 0
    then a
    else update_bytes_usage e.key e.in_bytes e.out_bytes a

-- The events of the channel, in the order in which they were sent.
unfoldable pub run_traffic_event_consume_loop : List TrafficEvent → Acl → Acl
run_traffic_event_consume_loop [] a = a
run_traffic_event_consume_loop (e ∷ es) a = run_traffic_event_consume_loop es (consume_event e a)
