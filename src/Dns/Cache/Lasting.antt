-- ===== src/Dns/Cache/Lasting.antt =====
-- How long an answer of dns/dns.go lasts: as long as it is fresh, whatever else is asked.
use toh.Base.{
  ℕ, Text, same, same_iff, ◌≡◌, ◌≢◌, refl, ◌⊎◌, inl, inr, Bool-cases, true, false, none, some,
  Option-cases, Result-cases, List, [], ◌∷◌, All, ok, ltb, Bool, Option, arith, ◌+◌, ◌*◌,
  if◌then◌else◌, subst,
}
use toh.Base.Dict.{lookup, insert, lookup-insert}
use toh.Dns.Cache.{
  Rr, ttl, max_ttl, Question, Msg, CacheEntry, DnsCache, set, cache_response, Upstream, ask,
  update_cache, with_id, answer_cached, answer_fresh, dns_query,
}
use toh.Dns.Cache.Answers.{fresh_until}

-- What happens to the cache: a query, or the update that a query whose answer was no longer fresh has
-- started on the side. Each has its upstream and its time.
pub data Event : Type 0 where
  queried updated : Upstream → ℕ → Msg → Event

-- The cache holds the answer, under some id, up to this time.
abbrev pub Keeps : Text → Msg → ℕ → DnsCache → Type 0
Keeps key resp t c =
    (id : ℕ) × (lookup key c.cache
      ≡ some (record { response = record resp { id = id }; expire = t }))

-- The largest time to live.
abbrev pub largest : List Rr → ℕ
largest [] = 0
largest (a ∷ rest) = if ltb (largest rest) (ttl a) then ttl a else largest rest

max_ttl-largest :
    (rs : List Rr) (m : ℕ) → max_ttl rs m ≡ (if ltb m (largest rs) then largest rs else m)
max_ttl-largest [] m = ground arith
max_ttl-largest (a ∷ rs) m = ground (arith, max_ttl-largest rs (if ltb m (ttl a) then ttl a else m))

-- The time up to which an answer counts as fresh: seconds, in nanoseconds.
abbrev pub lasts_until : ℕ → Msg → ℕ
lasts_until now resp = now + largest resp.answers * 1000000000

fresh_until-lasts_until : (now : ℕ) (resp : Msg) → fresh_until now resp ≡ lasts_until now resp
fresh_until-lasts_until now resp = ground (arith, max_ttl-largest resp.answers 0)

-- Upstream answers: the exchange, or, where it gives neither an answer nor an error, the client of the
-- library.
abbrev pub Answers : Upstream → Msg → Msg → Type 0
Answers u r resp =
    (u.exchange r ≡ ok (some resp)) ⊎ ((u.exchange r ≡ ok none) × (u.direct r ≡ ok resp))

ask-Answers : (u : Upstream) (r resp : Msg) → Answers u r resp → ask u r ≡ ok resp
ask-Answers u r resp answered = ground arith

module _ (question_string : Question → Text) where
  unfoldable pub event : Event → DnsCache → DnsCache
  unfolding dns_query update_cache
  event (queried u now r) c = (dns_query question_string u now r c).1
  event (updated u now r) c = elim r.questions [
    | [] ↦ c
    | q ∷ _ ↦ (update_cache u now (question_string q) r c).2
  ]

  unfoldable pub events : List Event → DnsCache → DnsCache
  unfolding event
  events [] c = c
  events (e ∷ es) c = events es (event e c)

  -- An update is for another question.
  abbrev pub Spares : Text → Event → Type 0
  Spares key (queried u now r) = Unit
  Spares key (updated u now r) = elim r.questions [ [] ↦ Unit | q ∷ _ ↦ question_string q ≢ key ]

  set-others :
      (j key : Text) (e : CacheEntry) (c : DnsCache)
      → j ≢ key
      → lookup key (set j e c).1.cache ≡ lookup key c.cache
  unfolding set
  set-others j key e c apart = ground (arith, same_iff j key, lookup-insert key j e c.cache)

  update-others :
      (u : Upstream) (now : ℕ) (j key : Text) (r : Msg) (c : DnsCache)
      → j ≢ key
      → lookup key (update_cache u now j r c).2.cache ≡ lookup key c.cache
  unfolding update_cache cache_response
  update-others u now j key r c apart = elim (Result-cases (ask u r)) [
    | inr (e, failed) ↦ ground (arith, failed)
    | inl (resp, answered) ↦
        let e : CacheEntry = record { response = resp; expire = fresh_until now resp } in
        ground (arith, answered, set-others j key e c apart)
  ]

  fresh-others :
      (j key : Text) (r : Msg) (x : Bool × Option CacheEntry × DnsCache)
      → j ≢ key
      → lookup key (answer_fresh j r x).1.cache ≡ lookup key x.2.cache
  unfolding answer_fresh
  fresh-others j key r (true, e, c) apart = refl
  fresh-others j key r (false, none, c) apart = refl
  fresh-others j key r (false, some e, c) apart = ground (
    arith,
    same_iff j key,
    lookup-insert key j (record e { response = with_id r e.response }) c.cache,
  )

  -- A query for the first question of a message.
  query-Keeps :
      (u : Upstream) (now : ℕ) (r : Msg) (key : Text) (resp : Msg) (t : ℕ) (c : DnsCache)
      (q : Question) (qs : List Question)
      → r.questions ≡ q ∷ qs
      → Keeps key resp t c
      → Keeps key resp t (dns_query question_string u now r c).1
  unfolding dns_query answer_cached
  query-Keeps u now r key resp t c q qs asked (id, there) =
      let j = question_string q in
      elim (Option-cases (lookup j c.cache)) [
        | inl missing ↦
            let apart : j ≢ key = λ alike. ground (arith, alike, missing, there) in
            (
              id,
              ground (
                arith,
                asked,
                missing,
                there,
                fresh-others j key r (update_cache u now j r c) apart,
                update-others u now j key r c apart,
              ),
            )
        | inr (e, found) ↦ elim (Bool-cases (same j key)) [
          | inl alike ↦ (
            r.id,
            ground (
              arith,
              asked,
              found,
              there,
              same_iff j key,
              lookup-insert key j (record e { response = with_id r e.response }) c.cache,
            ),
          )
          | inr other ↦ (
            id,
            ground (
              arith,
              asked,
              found,
              there,
              lookup-insert key j (record e { response = with_id r e.response }) c.cache,
            ),
          )
        ]
      ]

  List-cases :
      (qs : List Question) → (qs ≡ []) ⊎ ((q : Question) × (rest : List Question) × (qs ≡ q ∷ rest))
  List-cases [] = inl refl
  List-cases (q ∷ rest) = inr (q, rest, refl)

  event-Keeps :
      (e : Event) (key : Text) (resp : Msg) (t : ℕ) (c : DnsCache)
      → Keeps key resp t c
      → Spares key e
      → Keeps key resp t (event e c)
  unfolding event dns_query
  event-Keeps (queried u now r) key resp t c kept spares = elim (List-cases r.questions) [
    | inl empty ↦ (kept.0, ground (arith, empty, kept.1))
    | inr (q, qs, asked) ↦ query-Keeps u now r key resp t c q qs asked kept
  ]
  event-Keeps (updated u now r) key resp t c kept spares = elim (List-cases r.questions) [
    | inl empty ↦ (kept.0, ground (arith, empty, kept.1))
    | inr (q, qs, asked) ↦
        let apart : question_string q ≢ key = rw asked at spares in
        (
          kept.0,
          ground (arith, asked, kept.1, update-others u now (question_string q) key r c apart),
        )
  ]

  events-Keeps :
      (es : List Event) (key : Text) (resp : Msg) (t : ℕ) (c : DnsCache)
      → Keeps key resp t c
      → All (Spares key) es
      → Keeps key resp t (events es c)
  unfolding events
  events-Keeps [] key resp t c kept spare = kept
  events-Keeps (e ∷ es) key resp t c kept (spares, spare) =
      events-Keeps es key resp t (event e c) (event-Keeps e key resp t c kept spares) spare

  first-Keeps :
      (u : Upstream) (now : ℕ) (r : Msg) (c : DnsCache) (q first : Question)
      (qs more : List Question) (resp : Msg)
      → r.questions ≡ q ∷ qs
      → lookup (question_string q) c.cache ≡ none
      → ask u r ≡ ok resp
      → resp.questions ≡ first ∷ more
      → Keeps
          (question_string q)
          resp
          (fresh_until now resp)
          (dns_query question_string u now r c).1
  unfolding dns_query update_cache cache_response set answer_fresh
  first-Keeps u now r c q first qs more resp asked missing answered proper =
      let key = question_string q in
      (
        r.id,
        ground (
          arith,
          lookup-insert key key
              (record { response = with_id r resp; expire = fresh_until now resp })
              (insert key (record { response = resp; expire = fresh_until now resp }) c.cache),
        ),
      )

  later_answer :
      (v : Upstream) (later : ℕ) (s : Msg) (q : Question) (rs : List Question) (resp : Msg) (t : ℕ)
      (c : DnsCache)
      → s.questions ≡ q ∷ rs
      → Keeps (question_string q) resp t c
      → (dns_query question_string v later s c).0 ≡ record {
        written = some (record resp { id = s.id });
        refresh = ltb t later;
        panicked = false;
      }
  unfolding dns_query answer_cached
  later_answer v later s q rs resp t c again (id, there) = ground (arith, again, there)

  -- If a question is not in the cache, and upstream answers it with a message that has a question:
  -- after any further queries, for this question or others, and any updates for other questions,
  -- with no eviction and no update for this question between, a query for the question is answered
  -- with the same message under its own id, whatever upstream says by then; an update is started on
  -- the side exactly if the largest time to live among the first answers has passed.
  pub dns_query_cached :
      (u v : Upstream) (now later : ℕ) (r s : Msg) (es : List Event) (c : DnsCache)
      (q first : Question) (qs rs more : List Question) (resp : Msg)
      → r.questions ≡ q ∷ qs
      → s.questions ≡ q ∷ rs
      → lookup (question_string q) c.cache ≡ none
      → Answers u r resp
      → resp.questions ≡ first ∷ more
      → All (Spares (question_string q)) es
      → let (_, c') = dns_query question_string u now r c in
        (dns_query question_string v later s (events es c')).0 ≡ record {
          written = some (record resp { id = s.id });
          refresh = ltb (lasts_until now resp) later;
          panicked = false;
        }
  dns_query_cached u v now later r s es c q first qs rs more resp asked again missing answered
        proper spare =
      later_answer v later s q rs resp (lasts_until now resp)
        (events es (dns_query question_string u now r c).1) again
        (events-Keeps es (question_string q) resp (lasts_until now resp)
          (dns_query question_string u now r c).1
          (subst (λ t. Keeps (question_string q) resp t (dns_query question_string u now r c).1)
            (fresh_until-lasts_until now resp)
            (first-Keeps u now r c q first qs more resp asked missing
              (ask-Answers u r resp answered) proper))
          spare)
