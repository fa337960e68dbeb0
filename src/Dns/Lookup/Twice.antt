-- ===== src/Dns/Lookup/Twice.antt =====
-- What the look-ups of dns/dns.go remember.
use toh.Base.{
  ◌⊎◌, subst, sym, ◌∙◌, ◌+◌, ◌*◌, ℕ, Text, ◌≡◌, refl, ◌≢◌, Bool, true, false, Option, none, some,
  List, [], ◌∷◌, ◌++◌, inl, inr, Result, ok, err, ap, arith,
}
use toh.Base.Dict.{lookup, lookup-insert}
use toh.Dns.Cache.{
  Rr, rr_a, rr_aaaa, rr_other, Question, Msg, CacheEntry, DnsCache, set, cache_response, max_ttl,
}
use toh.Dns.Lookup.{
  LocalDns, type_a, type_aaaa, question_for, ips_a, ips_aaaa, cached_or_asked, Looked, looked,
  found, record_not_found, lookup_ip,
}

-- The answer has a question.
abbrev pub IsProper : Msg → Type 0
IsProper m = (q : Question) × (qs : List Question) × (m.questions ≡ q ∷ qs)

-- After an answer has been cached it is there, and the entries of other questions are as before.
cache_response-lookup :
    (now : ℕ) (key : Text) (resp : Msg) (c : DnsCache)
    → IsProper resp
    → let (panicked, entry, c') = cache_response now key resp c in
      (panicked ≡ false)
      × (entry.response ≡ resp)
      × (lookup key c'.cache ≡ some entry)
      × ((j : Text) → key ≢ j → lookup j c'.cache ≡ lookup j c.cache)
unfolding cache_response set
cache_response-lookup now key resp c (q, qs, asked) =
    let e : CacheEntry = record {
      response = resp;
      expire = now + max_ttl resp.answers 0 * 1000000000;
    } in
    (
      ground arith,
      refl,
      ground (arith, lookup-insert key key e c.cache),
      λ j ne. ground (arith, lookup-insert j key e c.cache),
    )

-- The answer to a question is this message: in the cache, or else from the exchange.
abbrev pub HasAnswer : (Msg → Result Text Msg) → Text → Msg → DnsCache → Msg → Type 0
HasAnswer exchange key r c m =
    ((e : CacheEntry) × (lookup key c.cache ≡ some e) × (e.response ≡ m))
    ⊎ ((lookup key c.cache ≡ none) × (exchange r ≡ ok m) × IsProper m)

-- The addresses in the records of an answer, of IPv4 and of IPv6.
abbrev pub v4_of : Rr → List Text
v4_of (rr_a _ ip) = ip ∷ []
v4_of (rr_aaaa _ ip) = []
v4_of (rr_other _) = []

abbrev pub v6_of : Rr → List Text
v6_of (rr_a _ ip) = []
v6_of (rr_aaaa _ ip) = ip ∷ []
v6_of (rr_other _) = []

abbrev pub all_of : (Rr → List Text) → List Rr → List Text
all_of pick [] = []
all_of pick (r ∷ rs) = pick r ++ all_of pick rs

-- What a look-up gives for two answers: their addresses, or an error if there are none.
abbrev pub given : List Text → Looked
given [] = looked (err record_not_found)
given (ip ∷ ips) = looked (ok (ip ∷ ips))

ips_a-all_of : (rs : List Rr) → ips_a rs ≡ all_of v4_of rs
ips_a-all_of [] = refl
ips_a-all_of (rr_a t ip ∷ rs) = ap (λ l. ip ∷ l) (ips_a-all_of rs)
ips_a-all_of (rr_aaaa t ip ∷ rs) = ips_a-all_of rs
ips_a-all_of (rr_other t ∷ rs) = ips_a-all_of rs

ips_aaaa-all_of : (rs : List Rr) → ips_aaaa rs ≡ all_of v6_of rs
ips_aaaa-all_of [] = refl
ips_aaaa-all_of (rr_a t ip ∷ rs) = ips_aaaa-all_of rs
ips_aaaa-all_of (rr_aaaa t ip ∷ rs) = ap (λ l. ip ∷ l) (ips_aaaa-all_of rs)
ips_aaaa-all_of (rr_other t ∷ rs) = ips_aaaa-all_of rs

found-given : (ips : List Text) → looked (found ips) ≡ given ips
found-given [] = refl
found-given (ip ∷ ips) = refl

addresses_lem :
    (e4 e6 : CacheEntry) (m4 m6 : Msg)
    → e4.response ≡ m4
    → e6.response ≡ m6
    → looked (found (ips_a e4.response.answers ++ ips_aaaa e6.response.answers))
      ≡ given (all_of v4_of m4.answers ++ all_of v6_of m6.answers)
addresses_lem e4 e6 m4 m6 h4 h6 =
    ap (λ p. looked (found (p ++ ips_aaaa e6.response.answers)))
      (ips_a-all_of e4.response.answers ∙ ap (λ m. all_of v4_of m.answers) h4)
    ∙ ap (λ p. looked (found (all_of v4_of m4.answers ++ p)))
        (ips_aaaa-all_of e6.response.answers ∙ ap (λ m. all_of v6_of m.answers) h6)
    ∙ found-given (all_of v4_of m4.answers ++ all_of v6_of m6.answers)

-- One half of the look-up has its entry, and has cached it, and has changed no other question's.
abbrev HasEntry : Text → DnsCache → Msg → Bool × Option CacheEntry × DnsCache → Type 0
HasEntry key c m (panicked, entry, c') =
    (e : CacheEntry) × (panicked ≡ false)
    × (e.response ≡ m)
    × (entry ≡ some e)
    × (lookup key c'.cache ≡ some e)
    × ((j : Text) → key ≢ j → lookup j c'.cache ≡ lookup j c.cache)

cached_lem :
    (exchange : Msg → Result Text Msg) (now : ℕ) (key : Text) (r : Msg) (c : DnsCache)
    (e : CacheEntry)
    → lookup key c.cache ≡ some e
    → cached_or_asked exchange now key r c ≡ (false, some e, c)
unfolding cached_or_asked
cached_lem exchange now key r c e h = rw (h, cached_or_asked) refl

asked-HasEntry :
    (exchange : Msg → Result Text Msg) (now : ℕ) (key : Text) (r : Msg) (c : DnsCache) (m : Msg)
    → HasAnswer exchange key r c m
    → HasEntry key c m (cached_or_asked exchange now key r c)
unfolding cached_or_asked
asked-HasEntry exchange now key r c m (inl (e, there, same)) =
    rw (cached_lem exchange now key r c e there) (e, refl, same, refl, there, λ j ne. refl)
asked-HasEntry exchange now key r c resp (inr (missing, answered, proper)) =
    let (calm, same_resp, there, others) = cache_response-lookup now key resp c proper in
    rw (missing, cached_or_asked)
      (rw answered ((cache_response now key resp c).1, calm, same_resp, refl, there, others))

module _ (fqdn : Text → Text) (question_string : Question → Text) (host : Text) (s : LocalDns)
    (enabled : s.enabled ≡ true) where
  abbrev key4 : Text
  key4 = question_string (record { name = fqdn host; qtype = type_a })

  abbrev key6 : Text
  key6 = question_string (record { name = fqdn host; qtype = type_aaaa })

  -- A look-up both of whose halves have their entries.
  lookup_hits :
      (exchange : Msg → Result Text Msg) (id4 id6 now : ℕ) (t : LocalDns) (e4 e6 : CacheEntry)
      → t.enabled ≡ true
      → lookup key4 t.cache.cache ≡ some e4
      → lookup key6 t.cache.cache ≡ some e6
      → (lookup_ip fqdn question_string exchange id4 id6 now host t).0
        ≡ looked (found (ips_a e4.response.answers ++ ips_aaaa e6.response.answers))
  unfolding lookup_ip
  lookup_hits exchange id4 id6 now t e4 e6 on has4 has6 =
      let first =
        cached_lem exchange now key4 (question_for fqdn id4 host type_a) t.cache e4 has4 in
      let second =
        cached_lem exchange now key6 (question_for fqdn id6 host type_aaaa) t.cache e6 has6 in
      ground (arith, first, second)

  -- Where the DNS is enabled, the two questions for a host are told apart, and each has an answer,
  -- in the cache or else from upstream as a message with a question: a look-up gives the IPv4
  -- addresses of the one answer and then the IPv6 addresses of the other, or an error if there are
  -- none, both answers are in the cache afterwards, and a second look-up gives the same whatever
  -- upstream says by then.
  pub lookup_ip_twice :
      (exchange later : Msg → Result Text Msg) (id4 id6 now id4' id6' then' : ℕ) (m4 m6 : Msg)
      → key4 ≢ key6
      → HasAnswer exchange key4 (question_for fqdn id4 host type_a) s.cache m4
      → HasAnswer exchange key6 (question_for fqdn id6 host type_aaaa) s.cache m6
      → let (first, s') = lookup_ip fqdn question_string exchange id4 id6 now host s in
        (first ≡ given (all_of v4_of m4.answers ++ all_of v6_of m6.answers))
        × ((e4 e6 : CacheEntry) × (lookup key4 s'.cache.cache ≡ some e4)
            × (lookup key6 s'.cache.cache ≡ some e6)
            × (e4.response ≡ m4)
            × (e6.response ≡ m6))
        × ((lookup_ip fqdn question_string later id4' id6' then' host s').0 ≡ first)
  unfolding lookup_ip
  lookup_ip_twice exchange later id4 id6 now id4' id6' then' m4 m6 apart answer4 answer6 =
      let r4 = question_for fqdn id4 host type_a in
      let r6 = question_for fqdn id6 host type_aaaa in
      let (e4, calm4, same4, got4, in4, keep4) =
        asked-HasEntry exchange now key4 r4 s.cache m4 answer4 in
      let c4 = (cached_or_asked exchange now key4 r4 s.cache).2 in
      let still6 : HasAnswer exchange key6 r6 c4 m6 =
        subst
          (λ o.
            ((e : CacheEntry) × (o ≡ some e) × (e.response ≡ m6))
            ⊎ ((o ≡ none) × (exchange r6 ≡ ok m6) × IsProper m6))
          (sym (keep4 key6 apart)) answer6 in
      let (e6, calm6, same6, got6, in6, keep6) = asked-HasEntry exchange now key6 r6 c4 m6 still6 in
      let first : (lookup_ip fqdn question_string exchange id4 id6 now host s).0
          ≡ looked (found (ips_a e4.response.answers ++ ips_aaaa e6.response.answers)) =
        ground (arith, calm4, got4, calm6, got6) in
      let s' = (lookup_ip fqdn question_string exchange id4 id6 now host s).1 in
      let s'_lem : (s'.enabled ≡ true) × (s'.cache ≡ (cached_or_asked exchange now key6 r6 c4).2) =
        ground arith in
      let has4 : lookup key4 s'.cache.cache ≡ some e4 =
        ground (arith, s'_lem, keep6 key4 (λ e. apart (sym e)), in4) in
      let has6 : lookup key6 s'.cache.cache ≡ some e6 = ground (arith, s'_lem, in6) in
      (
        first ∙ addresses_lem e4 e6 m4 m6 same4 same6,
        (e4, e6, has4, has6, same4, same6),
        lookup_hits later id4' id6' then' s' e4 e6 s'_lem.0 has4 has6 ∙ sym first,
      )
