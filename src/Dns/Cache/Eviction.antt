-- ===== src/Dns/Cache/Eviction.antt =====
-- What an eviction of dns/dns.go leaves of an answer that has been refreshed, and of the hosts of
-- its addresses.
use toh.Base.{
  ℕ, ◌+◌, ◌≤◌, ◌<◌, Text, same, same_iff, ◌≡◌, refl, inl, inr, Bool-cases, Option, none, some,
  Option-cases, List, [], ◌∷◌, ◌++◌, Any, arith, if◌then◌else◌,
}
use toh.Base.Dict.{Dict, IsMap, lookup, insert, lookup-insert, insert-IsMap}
use toh.Dns.Cache.{
  Rr, Question, Msg, CacheEntry, HostCacheEntry, DnsCache, rr_ip, trim_dots, add_host, add_hosts,
  set, evict_hosts, evict_round, cache_response, reverse_lookup,
}
use toh.Dns.Cache.Answers.{fresh_until, evict_round_lem}

-- The hosts of an address are kept until a time.
abbrev Until : Text → ℕ → Dict HostCacheEntry → Type 0
Until ip t d = (e : HostCacheEntry) × (lookup ip d ≡ some e) × (e.expire ≡ t)

module _ (expire : ℕ) (host : Text) where
  -- The entry for an address, with the host.
  abbrev grown : Option HostCacheEntry → HostCacheEntry
  grown none = record { hosts = host ∷ []; expire = expire }
  grown (some e) = record e { hosts = e.hosts ++ host ∷ [] }

  add_host-IsMap :
      (ip : Text) (d : Dict HostCacheEntry) → IsMap d → IsMap (add_host expire host ip d)
  unfolding add_host
  add_host-IsMap ip d h = elim (Option-cases (lookup ip d)) [
    | inl missing ↦
        rw (missing, add_host) (insert-IsMap ip (record { hosts = host ∷ []; expire = expire }) d h)
    | inr (e, found) ↦
        rw (found, add_host) (insert-IsMap ip (record e { hosts = e.hosts ++ host ∷ [] }) d h)
  ]

  add_hosts-IsMap :
      (rs : List Rr) (d : Dict HostCacheEntry) → IsMap d → IsMap (add_hosts expire host rs d)
  unfolding add_hosts
  add_hosts-IsMap [] d h = h
  add_hosts-IsMap (r ∷ rs) d h =
      add_hosts-IsMap rs (add_host expire host (rr_ip r) d) (add_host-IsMap (rr_ip r) d h)

  lookup-add_host :
      (ip jp : Text) (d : Dict HostCacheEntry)
      → lookup ip (add_host expire host jp d)
        ≡ (if same jp ip then some (grown (lookup jp d)) else lookup ip d)
  unfolding add_host
  lookup-add_host ip jp d = elim (Option-cases (lookup jp d)) [
    | inl missing ↦
        ground (arith, lookup-insert ip jp (record { hosts = host ∷ []; expire = expire }) d)
    | inr (e, found) ↦
        ground (arith, lookup-insert ip jp (record e { hosts = e.hosts ++ host ∷ [] }) d)
  ]

  -- The time of an entry stays.
  add_host-Until :
      (jp ip : Text) (t : ℕ) (d : Dict HostCacheEntry)
      → Until ip t d
      → Until ip t (add_host expire host jp d)
  add_host-Until jp ip t d (e, found, at) = elim (Bool-cases (same jp ip)) [
    | inl alike ↦ (grown (some e), ground (arith, lookup-add_host ip jp d, same_iff jp ip), at)
    | inr other ↦ (e, ground (arith, lookup-add_host ip jp d), at)
  ]

  add_hosts-Until :
      (rs : List Rr) (ip : Text) (t : ℕ) (d : Dict HostCacheEntry)
      → Until ip t d
      → Until ip t (add_hosts expire host rs d)
  unfolding add_hosts
  add_hosts-Until [] ip t d h = h
  add_hosts-Until (r ∷ rs) ip t d h =
      add_hosts-Until rs ip t (add_host expire host (rr_ip r) d) (add_host-Until (rr_ip r) ip t d h)

  add_hosts-first :
      (rs : List Rr) (ip : Text) (d : Dict HostCacheEntry)
      → lookup ip d ≡ none
      → Any (λ r. rr_ip r ≡ ip) rs
      → Until ip expire (add_hosts expire host rs d)
  unfolding add_hosts
  add_hosts-first [] ip d missing answered = absurd answered
  add_hosts-first (r ∷ rs) ip d missing answered = elim (Bool-cases (same (rr_ip r) ip)) [
    | inl alike ↦
        let first : lookup ip (add_host expire host (rr_ip r) d) ≡ some (grown none) =
          ground (arith, lookup-add_host ip (rr_ip r) d, same_iff (rr_ip r) ip) in
        add_hosts-Until rs ip expire (add_host expire host (rr_ip r) d) (grown none, first, refl)
    | inr other ↦
        let still : lookup ip (add_host expire host (rr_ip r) d) ≡ none =
          ground (arith, lookup-add_host ip (rr_ip r) d) in
        let later : Any (λ s. rr_ip s ≡ ip) rs = ground (arith, same_iff (rr_ip r) ip) in
        add_hosts-first rs ip (add_host expire host (rr_ip r) d) still later
  ]

module _ (now delay : ℕ) where
  not_kept :
      (k : Text) (d : Dict HostCacheEntry)
      → lookup k d ≡ none
      → lookup k (evict_hosts now delay d) ≡ none
  unfolding evict_hosts lookup
  not_kept k [] missing = refl
  not_kept k ((j, e) ∷ d) missing = ground (arith, not_kept k d)

  hosts_gone :
      (ip : Text) (t : ℕ) (d : Dict HostCacheEntry)
      → IsMap d
      → Until ip t d
      → t + delay < now
      → lookup ip (evict_hosts now delay d) ≡ none
  unfolding evict_hosts lookup
  hosts_gone ip t [] h (e, found, at) late = cc
  hosts_gone ip t ((j, w) ∷ d) h (e, found, at) late = elim (Bool-cases (same j ip)) [
    | inl alike ↦ ground (arith, same_iff j ip, not_kept ip d)
    | inr other ↦
        let below : lookup ip d ≡ some e = ground arith in
        ground (arith, hosts_gone ip t d h.1 (e, below, at) late)
  ]

-- Where the hosts of an address are not known yet, and each address stands once in the map: after
-- an answer with that address, later another answer to the same question, and an eviction at a time
-- when the first answer would have gone and the second does not go yet, the second answer is in the
-- cache, and the hosts of the address are gone, whether the second answer has the address or not.
pub hosts_go_first :
    (now later at delay : ℕ) (key ip : Text) (resp again : Msg) (q q' : Question)
    (qs qs' : List Question) (c : DnsCache)
    → IsMap c.host_cache
    → lookup ip c.host_cache ≡ none
    → resp.questions ≡ q ∷ qs
    → again.questions ≡ q' ∷ qs'
    → Any (λ r. rr_ip r ≡ ip) resp.answers
    → fresh_until now resp + delay < at
    → at ≤ fresh_until later again + delay
    → let (_, _, c₁) = cache_response now key resp c in
      let (_, _, c₂) = cache_response later key again c₁ in
      let c₃ = evict_round at delay c₂ in
      (lookup key c₃.cache ≡ some (record { response = again; expire = fresh_until later again }))
      × (reverse_lookup ip c₃ ≡ none)
unfolding reverse_lookup evict_round cache_response set
hosts_go_first now later at delay key ip resp again q q' qs qs' c once missing asked asked' answered
      over fresh =
    let t = fresh_until now resp in
    let t' = fresh_until later again in
    let d₁ = add_hosts t (trim_dots q.name) resp.answers c.host_cache in
    let d₂ = add_hosts t' (trim_dots q'.name) again.answers d₁ in
    let e₂ : CacheEntry = record { response = again; expire = t' } in
    let cache₁ = insert key (record { response = resp; expire = t }) c.cache in
    let c₂ : DnsCache = record { cache = insert key e₂ cache₁; host_cache = d₂ } in
    let once₂ =
      add_hosts-IsMap t' (trim_dots q'.name) again.answers d₁
        (add_hosts-IsMap t (trim_dots q.name) resp.answers c.host_cache once) in
    let first =
      add_hosts-first t (trim_dots q.name) resp.answers ip c.host_cache missing answered in
    let until = add_hosts-Until t' (trim_dots q'.name) again.answers ip t d₁ first in
    let there : lookup key c₂.cache ≡ some e₂ = ground (arith, lookup-insert key key e₂ cache₁) in
    let kept = (evict_round_lem at delay key c₂ e₂).0 there fresh in
    let gone = hosts_gone at delay ip t d₂ once₂ until over in
    ground (arith, asked, asked', kept, gone)
