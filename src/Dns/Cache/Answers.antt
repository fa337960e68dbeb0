-- ===== src/Dns/Cache/Answers.antt =====
-- What the cache of dns/dns.go gives back.
use toh.Base.{
  ℕ, subst, ◌+◌, ◌*◌, ◌≤◌, Text, ◌≡◌, refl, ◌⊎◌, inl, inr, false, some, Option-cases, Holds, List,
  [], ◌∷◌, ◌++◌, Any, arith,
}
use toh.Base.Dict.{Dict, lookup, lookup-insert}
use toh.Dns.Cache.{
  Rr, Question, Msg, CacheEntry, HostCacheEntry, DnsCache, rr_ip, trim_dots, add_host, add_hosts,
  set, evict_answers, evict_round, max_ttl, cache_response, reverse_lookup,
}

module _ (now delay : ℕ) (j : Text) where
  keeps_fresh :
      (d : Dict CacheEntry) (e : CacheEntry)
      → lookup j d ≡ some e
      → now ≤ e.expire + delay
      → lookup j (evict_answers now delay d) ≡ some e
  unfolding evict_answers lookup
  keeps_fresh [] e found fresh = cc
  keeps_fresh ((k, w) ∷ d) e found fresh = ground (arith, keeps_fresh d e)

  only_fresh :
      (d : Dict CacheEntry) (e : CacheEntry)
      → lookup j (evict_answers now delay d) ≡ some e
      → now ≤ e.expire + delay
  unfolding evict_answers lookup
  only_fresh [] e found = cc
  only_fresh ((k, w) ∷ d) e found = ground (arith, only_fresh d e)

  -- An eviction keeps the answer to a question unless its time, and the delay, have passed, and what is
  -- found afterwards has not passed them.
  pub evict_round_lem :
      (c : DnsCache) (e : CacheEntry)
      → (lookup j c.cache ≡ some e
          → now ≤ e.expire + delay
          → lookup j (evict_round now delay c).cache ≡ some e)
        × (lookup j (evict_round now delay c).cache ≡ some e → now ≤ e.expire + delay)
  unfolding evict_round
  evict_round_lem c e = (keeps_fresh c.cache e, only_fresh c.cache e)

-- The time up to which an answer counts as fresh.
abbrev pub fresh_until : ℕ → Msg → ℕ
fresh_until now resp = now + max_ttl resp.answers 0 * 1000000000

-- The host is among those of the address.
abbrev pub Knows : Text → Text → Dict HostCacheEntry → Type 0
Knows ip host d = Holds (λ e. Any (λ h. h ≡ host) e.hosts) (lookup ip d)

Any-append :
    (host x : Text) (hs : List Text)
    → Any (λ h. h ≡ host) hs ⊎ (x ≡ host)
    → Any (λ h. h ≡ host) (hs ++ x ∷ [])
Any-append host x [] h = ground arith
Any-append host x (y ∷ hs) h = ground (arith, Any-append host x hs)

module _ (expire : ℕ) (host : Text) where
  add_host-Knows : (ip : Text) (d : Dict HostCacheEntry) → Knows ip host (add_host expire host ip d)
  unfolding add_host
  add_host-Knows ip d = elim (Option-cases (lookup ip d)) [
    | inl missing ↦
        ground (arith, lookup-insert ip ip (record { hosts = host ∷ []; expire = expire }) d)
    | inr (e, found) ↦
        let new : HostCacheEntry = record e { hosts = e.hosts ++ host ∷ [] } in
        let there = Any-append host host e.hosts (inr refl) in
        ground (arith, lookup-insert ip ip new d)
  ]

  add_host_keeps :
      (ip jp : Text) (d : Dict HostCacheEntry)
      → Knows jp host d
      → Knows jp host (add_host expire host ip d)
  unfolding add_host
  add_host_keeps ip jp d h = elim (Option-cases (lookup ip d)) [
    | inl missing ↦
        ground (arith, lookup-insert jp ip (record { hosts = host ∷ []; expire = expire }) d)
    | inr (e, found) ↦
        let new : HostCacheEntry = record e { hosts = e.hosts ++ host ∷ [] } in
        ground (arith, lookup-insert jp ip new d, Any-append host host e.hosts)
  ]

  add_hosts_keeps :
      (rs : List Rr) (jp : Text) (d : Dict HostCacheEntry)
      → Knows jp host d
      → Knows jp host (add_hosts expire host rs d)
  unfolding add_hosts
  add_hosts_keeps [] jp d h = h
  add_hosts_keeps (r ∷ rs) jp d h =
      add_hosts_keeps rs jp (add_host expire host (rr_ip r) d) (add_host_keeps (rr_ip r) jp d h)

  add_hosts-Knows :
      (rs : List Rr) (ip : Text) (d : Dict HostCacheEntry)
      → Any (λ r. rr_ip r ≡ ip) rs
      → Knows ip host (add_hosts expire host rs d)
  unfolding add_hosts
  add_hosts-Knows [] ip d h = absurd h
  add_hosts-Knows (r ∷ rs) ip d (inl here) =
      add_hosts_keeps rs ip (add_host expire host (rr_ip r) d) (
        subst (λ t. Knows t host (add_host expire host (rr_ip r) d)) here
          (add_host-Knows (rr_ip r) d))
  add_hosts-Knows (r ∷ rs) ip d (inr later) =
      add_hosts-Knows rs ip (add_host expire host (rr_ip r) d) later

-- After a response with a question has been cached, the reverse lookup of each of its addresses gives
-- hosts among which is the name of that question, without the dots around it.
reverse_lookup-cache_response :
    (now : ℕ) (key : Text) (resp : Msg) (c : DnsCache) (q : Question) (qs : List Question)
    (ip : Text)
    → resp.questions ≡ q ∷ qs
    → Any (λ r. rr_ip r ≡ ip) resp.answers
    → let (panicked, _, c') = cache_response now key resp c in
      (panicked ≡ false)
      × Holds (λ hosts. Any (λ h. h ≡ trim_dots q.name) hosts) (reverse_lookup ip c')
unfolding cache_response set reverse_lookup
reverse_lookup-cache_response now key resp c q qs ip asked answered = ground (
  arith,
  add_hosts-Knows (fresh_until now resp) (trim_dots q.name) resp.answers ip c.host_cache answered,
)
