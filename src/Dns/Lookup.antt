-- ===== src/Dns/Lookup.antt =====
-- The local DNS as the proxies ask it (dns/dns.go): its addresses, and the two look-ups.
pub mod Twice
use toh.Base.{
  ℕ, Text, text, Bool, true, false, ◌||◌, Option, none, some, List, [], ◌∷◌, ◌++◌, if◌then◌else◌,
  length, ◌==◌, Result, ok, err,
}
use toh.Base.Dict.{lookup}
use toh.Base.Net.{join_host_port}
use toh.Base.ParseIp.{parse_ip}
use toh.Dns.Cache.{
  Rr, rr_a, rr_aaaa, rr_other, Question, Msg, CacheEntry, DnsCache, cache_response, reverse_lookup,
}

-- The addresses of the options, and whether `Run` has enabled the local DNS.
pub record LocalDns : Type 0 where
  pub listen : Text
  pub upstream : Text
  pub enabled : Bool
  pub cache : DnsCache

-- `NewLocalDNS`, from the addresses of the options. The ticker of the cache is left out: the rounds
-- of the eviction are called.
unfoldable pub new_local_dns : Text → Text → LocalDns
new_local_dns listen upstream = record {
  listen = listen;
  upstream = upstream;
  enabled = false;
  cache = record { cache = []; host_cache = [] };
}

-- What `Run` does before it serves: without an upstream nothing, else an IP gets the port 53. The
-- text of the address to listen on is put in front of the one with the port.
unfoldable pub run : LocalDns → LocalDns
unfolding parse_ip join_host_port
run s = if length s.upstream == 0 then s else record s {
  upstream = elim (parse_ip s.upstream) [
    | none ↦ s.upstream
    | some _ ↦ join_host_port s.upstream (text "53")
  ];
  listen = elim (parse_ip s.listen) [
    | none ↦ s.listen
    | some _ ↦ s.listen ++ join_host_port s.listen (text "53")
  ];
  enabled = true;
}

-- The numbers of the types A and AAAA.
abbrev pub type_a : ℕ
type_a = 1

abbrev pub type_aaaa : ℕ
type_aaaa = 28

-- `SetQuestion` for the full name of a host; the library chooses the id.
abbrev pub question_for : (Text → Text) → ℕ → Text → ℕ → Msg
question_for fqdn id host t = record {
  id = id;
  questions = record { name = fqdn host; qtype = t } ∷ [];
  answers = [];
}

abbrev pub ips_a : List Rr → List Text
ips_a [] = []
ips_a (rr_a _ ip ∷ rest) = ip ∷ ips_a rest
ips_a (_ ∷ rest) = ips_a rest

abbrev pub ips_aaaa : List Rr → List Text
ips_aaaa [] = []
ips_aaaa (rr_aaaa _ ip ∷ rest) = ip ∷ ips_aaaa rest
ips_aaaa (_ ∷ rest) = ips_aaaa rest

-- One of the two halves of `LookupIP`: whether it has panicked, the entry, which is nil where the
-- exchange has failed, and the cache. `key` is the text of the question.
unfoldable pub cached_or_asked :
    (Msg → Result Text Msg) → ℕ → Text → Msg → DnsCache → Bool × Option CacheEntry × DnsCache
unfolding cache_response
cached_or_asked exchange now key r c = elim (lookup key c.cache) [
  | some e ↦ (false, some e, c)
  | none ↦ elim (exchange r) [
    | err e ↦ (false, none, c)
    | ok resp ↦
        let (panicked, entry, c') = cache_response now key resp c in (panicked, some entry, c')
  ]
]

abbrev pub entry_ips : (List Rr → List Text) → Option CacheEntry → List Text
entry_ips pick none = []
entry_ips pick (some e) = pick e.response.answers

pub data LookupError : Type 0 where
  local_dns_disabled record_not_found unresolved : LookupError

-- `lookup_ip`: an answer, or the panic of one of its goroutines.
pub data Looked : Type 0 where
  looked : Result LookupError (List Text) → Looked
  crashed : Looked

abbrev pub found : List Text → Result LookupError (List Text)
found [] = err record_not_found
found (ip ∷ ips) = ok (ip ∷ ips)

-- The goroutine that asks for type A first, and the one for type AAAA after it; they write under
-- different questions.
unfoldable pub lookup_ip :
    (Text → Text)
    → (Question → Text)
    → (Msg → Result Text Msg)
    → ℕ
    → ℕ
    → ℕ
    → Text
    → LocalDns
    → Looked × LocalDns
unfolding cached_or_asked
lookup_ip fqdn question_string exchange id4 id6 now host s =
    let key4 = question_string (record { name = fqdn host; qtype = type_a }) in
    let key6 = question_string (record { name = fqdn host; qtype = type_aaaa }) in
    let (panicked4, entry4, c4) =
      cached_or_asked exchange now key4 (question_for fqdn id4 host type_a) s.cache in
    let (panicked6, entry6, c6) =
      cached_or_asked exchange now key6 (question_for fqdn id6 host type_aaaa) c4 in
    if s.enabled
    then (
      (if panicked4 || panicked6
          then crashed
          else looked (found (entry_ips ips_a entry4 ++ entry_ips ips_aaaa entry6))),
      record s { cache = c6 },
    )
    else (looked (err local_dns_disabled), s)

unfoldable pub reverse_lookup_ip : Text → LocalDns → Result LookupError (List Text)
unfolding reverse_lookup
reverse_lookup_ip ip s =
    if s.enabled
    then (elim (reverse_lookup ip s.cache) [ none ↦ err unresolved | some hosts ↦ ok hosts ])
    else err local_dns_disabled
