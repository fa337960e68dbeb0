-- ===== src/Dns/Cache.antt =====
-- The cache of answers and of host names (dns/dns.go). Times are nanoseconds; the lock is not
-- modelled: calls follow one another.
pub mod Answers
pub mod Lasting
pub mod Eviction
use mathlib.Core.List.{reverse}
use toh.Base.{
  text, ◌==◌, ℕ, ◌+◌, ◌*◌, Text, Bool, true, false, Option, none, some, List, [], ◌∷◌, ◌++◌, ltb,
  if◌then◌else◌, Result, ok, err,
}
use toh.Base.Dict.{Dict, lookup, insert}
use toh.Base.Net.{to4, ip_string}

-- A resource record with its time to live; an address is its bytes.
pub data Rr : Type 0 where
  rr_a rr_aaaa : ℕ → Text → Rr
  rr_other : ℕ → Rr

pub record Question : Type 0 where
  pub name : Text
  pub qtype : ℕ

pub record Msg : Type 0 where
  pub id : ℕ
  pub questions : List Question
  pub answers : List Rr

pub record CacheEntry : Type 0 where
  pub response : Msg
  pub expire : ℕ

pub record HostCacheEntry : Type 0 where
  pub hosts : List Text
  pub expire : ℕ

pub record DnsCache : Type 0 where
  pub cache : Dict CacheEntry
  pub host_cache : Dict HostCacheEntry

abbrev pub ttl : Rr → ℕ
ttl (rr_a t _) = t
ttl (rr_aaaa t _) = t
ttl (rr_other t) = t

-- The text under which a record is kept: empty for a record that is no address.
abbrev pub rr_ip : Rr → Text
rr_ip (rr_a _ ip) = elim (to4 ip) [ some v4 ↦ ip_string v4 | none ↦ text "<nil>" ]
rr_ip (rr_aaaa _ ip) = ip_string ip
rr_ip (rr_other _) = []

abbrev pub skip_dots : Text → Text
skip_dots [] = []
skip_dots (c ∷ s) = if c == b'.' then skip_dots s else c ∷ s

-- `strings.Trim(host, ".")`
abbrev pub trim_dots : Text → Text
trim_dots host = reverse (skip_dots (reverse (skip_dots host)))

-- One round of the loop of `set`: a host is added, and the time of an entry that is there stays.
unfoldable pub add_host : ℕ → Text → Text → Dict HostCacheEntry → Dict HostCacheEntry
add_host expire host ip d = elim (lookup ip d) [
  | none ↦ insert ip (record { hosts = host ∷ []; expire = expire }) d
  | some e ↦ insert ip (record e { hosts = e.hosts ++ host ∷ [] }) d
]

unfoldable pub add_hosts : ℕ → Text → List Rr → Dict HostCacheEntry → Dict HostCacheEntry
unfolding add_host
add_hosts expire host [] d = d
add_hosts expire host (a ∷ rest) d = add_hosts expire host rest (add_host expire host (rr_ip a) d)

-- `set`; the flag says that it panicked, since the response has no question.
unfoldable pub set : Text → CacheEntry → DnsCache → Bool × DnsCache
unfolding add_hosts
set key entry c = elim entry.response.questions [
  | [] ↦ (true, record c { cache = insert key entry c.cache })
  | q ∷ _ ↦ (
    false,
    record {
      cache = insert key entry c.cache;
      host_cache = add_hosts entry.expire (trim_dots q.name) entry.response.answers c.host_cache;
    },
  )
]

-- The loops of the eviction: an entry goes when its time, and the delay, have passed.
unfoldable pub evict_answers : ℕ → ℕ → Dict CacheEntry → Dict CacheEntry
evict_answers now delay [] = []
evict_answers now delay ((k, e) ∷ d) =
    let rest = evict_answers now delay d in
    if ltb (e.expire + delay) now then rest else (k, e) ∷ rest

unfoldable pub evict_hosts : ℕ → ℕ → Dict HostCacheEntry → Dict HostCacheEntry
evict_hosts now delay [] = []
evict_hosts now delay ((k, e) ∷ d) =
    let rest = evict_hosts now delay d in if ltb (e.expire + delay) now then rest else (k, e) ∷ rest

unfoldable pub evict_round : ℕ → ℕ → DnsCache → DnsCache
unfolding evict_answers evict_hosts
evict_round now delay c = record {
  cache = evict_answers now delay c.cache;
  host_cache = evict_hosts now delay c.host_cache;
}

abbrev pub max_ttl : List Rr → ℕ → ℕ
max_ttl [] m = m
max_ttl (a ∷ rest) m = max_ttl rest (if ltb m (ttl a) then ttl a else m)

-- `key` is the text of the question that was asked.
unfoldable pub cache_response : ℕ → Text → Msg → DnsCache → Bool × CacheEntry × DnsCache
unfolding set
cache_response now key resp c =
    let entry : CacheEntry = record {
      response = resp;
      expire = now + max_ttl resp.answers 0 * 1000000000;
    } in
    let (panicked, c') = set key entry c in (panicked, entry, c')

-- The two ways to ask upstream: `Exchange`, which may give neither an answer nor an error, and then
-- the library's client.
pub record Upstream : Type 0 where
  pub exchange : Msg → Result Text (Option Msg)
  pub direct : Msg → Result Text Msg

abbrev pub ask : Upstream → Msg → Result Text Msg
ask u r = elim (u.exchange r) [ err e ↦ err e | ok (some resp) ↦ ok resp | ok none ↦ u.direct r ]

-- `updateCache`: `none` is the nil entry, and the flag says that the cache panicked.
unfoldable pub update_cache :
    Upstream → ℕ → Text → Msg → DnsCache → Bool × Option CacheEntry × DnsCache
unfolding cache_response
update_cache u now key r c = elim (ask u r) [
  | err e ↦ (false, none, c)
  | ok resp ↦
      let (panicked, entry, c') = cache_response now key resp c in (panicked, some entry, c')
]

-- What `dnsQuery` does: what it writes, whether it starts an update on the side, and whether it has
-- panicked.
pub record Reply : Type 0 where
  pub written : Option Msg
  pub refresh : Bool
  pub panicked : Bool

abbrev pub with_id : Msg → Msg → Msg
with_id r resp = record resp { id = r.id }

-- The response in the cache is the one whose id is changed, so the cache keeps the id.
unfoldable pub answer_cached : ℕ → Text → Msg → CacheEntry → DnsCache → Reply × DnsCache
answer_cached now key r e c = (
  record { written = some (with_id r e.response); refresh = ltb e.expire now; panicked = false },
  record c { cache = insert key (record e { response = with_id r e.response }) c.cache },
)

unfoldable pub answer_fresh : Text → Msg → Bool × Option CacheEntry × DnsCache → Reply × DnsCache
answer_fresh key r (true, _, c) = (record { written = none; refresh = false; panicked = true }, c)
answer_fresh key r (false, none, c) =
    (record { written = none; refresh = false; panicked = false }, c)
answer_fresh key r (false, some e, c) = (
  record { written = some (with_id r e.response); refresh = false; panicked = false },
  record c { cache = insert key (record e { response = with_id r e.response }) c.cache },
)

-- `question_string` is the library's text of a question.
unfoldable pub dns_query : (Question → Text) → Upstream → ℕ → Msg → DnsCache → Reply × DnsCache
unfolding answer_cached answer_fresh update_cache
dns_query question_string u now r c = elim r.questions [
  | [] ↦ (record { written = none; refresh = false; panicked = false }, c)
  | q ∷ _ ↦ elim (lookup (question_string q) c.cache) [
    | some e ↦ answer_cached now (question_string q) r e c
    | none ↦ answer_fresh (question_string q) r (update_cache u now (question_string q) r c)
  ]
]

-- `reverse_lookup`: `hosts`, with `none` where there is no entry, which `ReverseLookup` makes an error.
unfoldable pub reverse_lookup : Text → DnsCache → Option (List Text)
reverse_lookup ip c = elim (lookup ip c.host_cache) [ none ↦ none | some e ↦ some e.hosts ]
