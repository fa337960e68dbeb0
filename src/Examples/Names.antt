-- ===== src/Examples/Names.antt =====
-- The theorems on dns/dns.go at one question and one answer.
use toh.Base.{
  ℕ, text, ◌≡◌, ◌≢◌, List, refl, false, none, some, [], ◌∷◌, inl, ltb, ok, err, Result, Text, true,
  ◌++◌, if◌then◌else◌, ◌==◌, inr, arith,
}
use toh.Base.Dict.{lookup}
use toh.Base.Net.{to4, ip_string}
use toh.Dns.Lookup.{LocalDns, looked, lookup_ip}
use toh.Dns.Lookup.Twice.{lookup_ip_twice}
use toh.Dns.Cache.{
  CacheEntry, rr_a, Question, Msg, DnsCache, Upstream, cache_response, dns_query, reverse_lookup,
  evict_round,
}
use toh.Dns.Cache.Lasting.{Event, queried, updated, events, lasts_until, dns_query_cached}
use toh.Dns.Cache.Eviction.{hosts_go_first}
use toh.Dns.Cache.Answers.{fresh_until}

abbrev question : Question
question = record { name = text "a.org."; qtype = 1 }

abbrev query : ℕ → Msg
query id = record { id = id; questions = question ∷ []; answers = [] }

abbrev reply : Msg
reply = record { id = 7; questions = question ∷ []; answers = rr_a 60 (10 ∷ 0 ∷ 0 ∷ 1 ∷ []) ∷ [] }

abbrev no_cache : DnsCache
no_cache = record { cache = []; host_cache = [] }

abbrev upstream : Upstream
upstream = record { exchange = λ r. ok none; direct = λ r. ok reply }

abbrev other_query : Msg
other_query = record {
  id = 9;
  questions = record { name = text "b.org."; qtype = 1 } ∷ [];
  answers = [];
}

-- Another question, an update for it, and the same question once more.
abbrev between : List Event
between =
    queried upstream 6 other_query
    ∷ updated upstream 7 other_query
    ∷ queried upstream 7 (query 3)
    ∷ []

names_apart : text "b.org." ≢ text "a.org."
names_apart e = ground arith

dns_query_cached_example :
    let (_, c) = dns_query (λ q. q.name) upstream 5 (query 1) no_cache in
    (dns_query (λ q. q.name) upstream 8 (query 2) (events (λ q. q.name) between c)).0 ≡ record {
      written = some (record reply { id = 2 });
      refresh = ltb (lasts_until 5 reply) 8;
      panicked = false;
    }
unfolding lookup
dns_query_cached_example =
    dns_query_cached (λ q. q.name) upstream upstream 5 8 (query 1) (query 2) between no_cache
      question question [] [] [] reply refl refl refl (inr (refl, refl)) refl
      (tt, (names_apart, (tt, tt)))

-- Another answer to the question, with a longer time and another address.
abbrev moved : Msg
moved = record reply { answers = rr_a 3600 (10 ∷ 0 ∷ 0 ∷ 2 ∷ []) ∷ [] }

hosts_go_first_example :
    let (_, _, c₁) = cache_response 5 (text "a.org.") reply no_cache in
    let (_, _, c₂) = cache_response 70000000000 (text "a.org.") moved c₁ in
    let c₃ = evict_round 80000000000 1000 c₂ in
    (lookup (text "a.org.") c₃.cache
      ≡ some (record { response = moved; expire = fresh_until 70000000000 moved }))
    × (reverse_lookup (text "10.0.0.1") c₃ ≡ none)
unfolding to4 ip_string lookup
hosts_go_first_example =
    hosts_go_first 5 70000000000 80000000000 1000 (text "a.org.") (text "10.0.0.1") reply moved
      question question [] [] no_cache tt refl refl refl (inl refl) (omega arith) (omega arith)

abbrev dns : LocalDns
dns = record {
  listen = text "127.0.0.1:53";
  upstream = text "8.8.8.8:53";
  enabled = true;
  cache = no_cache;
}

-- An exchange that answers every question.
abbrev answers : Msg → Result Text Msg
answers r = ok (record r { answers = rr_a 60 (10 ∷ 0 ∷ 0 ∷ 1 ∷ []) ∷ [] })

-- What it tells.
abbrev told : ℕ → ℕ → Msg
told id t = record {
  id = id;
  questions = record { name = text "a.org."; qtype = t } ∷ [];
  answers = rr_a 60 (10 ∷ 0 ∷ 0 ∷ 1 ∷ []) ∷ [];
}

abbrev fails : Msg → Result Text Msg
fails r = err (text "timeout")

abbrev asked : Question → Text
asked q = (if q.qtype == 1 then text "A " else text "AAAA ") ++ q.name

lookup_ip_twice_example :
    let (first, s') = lookup_ip (λ h. h ++ text ".") asked answers 1 2 5 (text "a.org") dns in
    (first ≡ looked (ok ((10 ∷ 0 ∷ 0 ∷ 1 ∷ []) ∷ [])))
    × ((e4 e6 : CacheEntry) × (lookup (text "A a.org.") s'.cache.cache ≡ some e4)
        × (lookup (text "AAAA a.org.") s'.cache.cache ≡ some e6)
        × (e4.response ≡ told 1 1)
        × (e6.response ≡ told 2 28))
    × ((lookup_ip (λ h. h ++ text ".") asked fails 3 4 9 (text "a.org") s').0 ≡ first)
unfolding lookup
lookup_ip_twice_example =
    lookup_ip_twice (λ h. h ++ text ".") asked (text "a.org") dns refl answers fails 1 2 5 3 4 9
      (told 1 1) (told 2 28) (λ e. cc e) (inr (refl, refl, (_, _, refl)))
      (inr (refl, refl, (_, _, refl)))
