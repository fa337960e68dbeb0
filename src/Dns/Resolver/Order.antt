-- ===== src/Dns/Resolver/Order.antt =====
-- Which server's answer the resolver of dns/query.go takes.
use toh.Base.{ℕ, Text, ◌≡◌, Option, none, some, List, [], ◌∷◌, ◌++◌, All, Result, ok, err, arith}
use toh.Base.ParseIp.{parse_ip}
use toh.Dns.Cache.{Msg}
use toh.Dns.Lookup.{question_for}
use toh.Dns.Resolver.{
  Resolver, exchange_failed, ask_servers, addresses, chosen, resolved, lookup_ip,
}

-- The exchange with a server fails.
abbrev pub Fails : (Text → Msg → Result Text Msg) → Msg → Text → Type 0
Fails exchange q s = (e : Text) × (exchange s q ≡ err e)

module _ (exchange : Text → Msg → Result Text Msg) (q : Msg) where
  ask_servers_first :
      (before : List Text) (s : Text) (after : List Text) (last : Result Text (Option Msg))
      (m : Msg)
      → All (Fails exchange q) before
      → exchange s q ≡ ok m
      → ask_servers exchange q (before ++ s ∷ after) last ≡ ok (some m)
  unfolding ask_servers
  ask_servers_first [] s after last m h answered = ground arith
  ask_servers_first (b ∷ before) s after last m ((e, failed), h) answered =
      rw (failed, ask_servers) (ask_servers_first before s after (err e) m h answered)

  ask_servers_none :
      (before : List Text) (s : Text) (last : Result Text (Option Msg)) (e : Text)
      → All (Fails exchange q) before
      → exchange s q ≡ err e
      → ask_servers exchange q (before ++ s ∷ []) last ≡ err e
  unfolding ask_servers
  ask_servers_none [] s last e h failed = ground arith
  ask_servers_none (b ∷ before) s last e ((e', failed'), h) failed =
      rw (failed', ask_servers) (ask_servers_none before s (err e') e h failed)

module _ (fqdn : Text → Text) (id : ℕ) (r : Resolver) (host : Text) (t : ℕ)
    (name : parse_ip host ≡ none) (before : List Text) (s : Text) (after : List Text)
    (servers : r.ipv4_servers ++ r.ipv6_servers ≡ before ++ s ∷ after)
    (others : All (Fails r.exchange (question_for fqdn id host t)) before) where
  -- For a host that is no IP address: the resolver takes the addresses of the first server that
  -- answers, in the order of the IPv4 servers and then the IPv6 servers, or, where the answer has
  -- none, the error for the type.
  lookup_ip_first :
      (m : Msg)
      → r.exchange s (question_for fqdn id host t) ≡ ok m
      → lookup_ip fqdn id r host t ≡ some (chosen t (addresses m.answers))
  unfolding lookup_ip resolved
  lookup_ip_first m answered = ground (
    arith,
    ask_servers_first r.exchange (question_for fqdn id host t) before s after (ok none) m others
        answered,
  )

  -- If the last server fails like all before it, the result is its error.
  lookup_ip_last :
      (e : Text)
      → after ≡ []
      → r.exchange s (question_for fqdn id host t) ≡ err e
      → lookup_ip fqdn id r host t ≡ some (err (exchange_failed e))
  unfolding lookup_ip resolved
  lookup_ip_last e last failed = ground (
    arith,
    ask_servers_none r.exchange (question_for fqdn id host t) before s (ok none) e others failed,
  )
