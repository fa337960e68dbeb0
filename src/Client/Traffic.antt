-- ===== src/Client/Traffic.antt =====
-- What a client of client/client.go reaches through the server of server/server.go once traffic has
-- been charged to its key by the loop of server/stats.go.
use toh.Base.{ℕ, ◌+◌, ◌<◌, Text, ◌≡◌, refl, ◌∙◌, ◌↔◌, true, false, List, [], ◌∷◌, arith}
use toh.Base.Words.{modulus64}
use toh.Api.{BytesUsage}
use toh.Acl.State.{Acl, Key}
use toh.Acl.Quota.Bounds.{IsWord64, Agrees, MayReceive, MaySend}
use toh.Acl.Access.{is_admin_access, admin_enabled}
use toh.Acl.Access.Allowance.{check_usage_iff, admitted_iff}
use toh.Acl.Access.Policy.{Permits}
use toh.Acl.Change.{update_bytes_usage}
use toh.Acl.Isolation.{IsSound}
use toh.Server.Stats.{TrafficEvent, consume_event, run_traffic_event_consume_loop}
use toh.Server.Stats.Accounting.{total_in, total_out, charged, Stands, consume_charges}
use toh.Server.Stream.{World}
use toh.Client.{dial_context, tcp_or_udp}
use toh.Client.Reach.{opened, first_message, Reaches, IsOk, dial_context_iff}

consume-admin_key : (e : TrafficEvent) (a : Acl) → (consume_event e a).admin_key ≡ a.admin_key
unfolding consume_event update_bytes_usage
consume-admin_key e a = ground arith

loop-admin_key :
    (es : List TrafficEvent) (a : Acl)
    → (run_traffic_event_consume_loop es a).admin_key ≡ a.admin_key
unfolding run_traffic_event_consume_loop
loop-admin_key [] a = refl
loop-admin_key (e ∷ es) a = loop-admin_key es (consume_event e a) ∙ consume-admin_key e a

same_admin :
    (a b : Acl) (key : Text)
    → b.admin_key ≡ a.admin_key
    → is_admin_access b key ≡ is_admin_access a key
unfolding is_admin_access admin_enabled
same_admin a b key h = ground arith

-- A counter that has not wrapped.
abbrev pub spent : BytesUsage → ℕ → ℕ → BytesUsage
spent u received sent = record { in_bytes = u.in_bytes + received; out_bytes = u.out_bytes + sent }

charged-spent :
    (u : BytesUsage) (received sent : ℕ)
    → u.in_bytes + received + (u.out_bytes + sent) < modulus64
    → charged u received sent ≡ spent u received sent
charged-spent u received sent small = ground arith

module _ (key : Text) (k : Key) (es : List TrafficEvent) (a : Acl) (u : BytesUsage) where
  -- What the counter of the key stands at in the end.
  abbrev pub total : BytesUsage
  total = spent u (total_in key es) (total_out key es)

  -- For a live key, which is not the admin's, in a list where no two live keys share a counter and
  -- none lies among the free addresses; where the limits of the key are 64-bit numbers that agree,
  -- and the traffic, all of it, is below 2 ^ 64 bytes: after any events, a client with the key,
  -- behind a TCP address, reaches an address through the server exactly for the networks of TCP and
  -- UDP, if with the traffic of before and that of the events for this key it may still receive and
  -- send, its lists permit the network and address, and the server reaches the address.
  pub dial_context-charged :
      (w : World) (ip network addr : Text)
      → IsSound a
      → Stands key k u a
      → is_admin_access a key ≡ false
      → IsWord64 k total
      → Agrees k
      → total.in_bytes + total.out_bytes < modulus64
      → IsOk (
          dial_context
            (opened (run_traffic_event_consume_loop es a) w ip)
            first_message
            key
            network
            addr)
        ↔ ((tcp_or_udp network ≡ true)
            × (MayReceive k total × MaySend k total)
            × Permits k.whitelist k.blacklist network addr
            × Reaches w network addr)
  dial_context-charged w ip network addr sound stands other words agrees small =
      let b = run_traffic_event_consume_loop es a in
      let (found, counter) =
        consume_charges key k es a u sound (omega arith) (omega arith) stands in
      let stood : b.cells k.bytes_usage ≡ total =
        counter ∙ charged-spent u (total_in key es) (total_out key es) small in
      let outsider : is_admin_access b key ≡ false =
        same_admin a b key (loop-admin_key es a) ∙ other in
      ground (
        arith,
        dial_context_iff b w ip key network addr,
        admitted_iff b key network addr k total found stood outsider,
        check_usage_iff k total words agrees small,
      )
