-- ===== src/Cmd/S5/Health.antt =====
-- The health check of cmd/s5/server/server.go, and which address families it enables.
use toh.Base.{
  ℕ, Text, ◌≡◌, refl, Bool, true, false, Option, none, some, List, [], ◌∷◌, ◌++◌, ltb, arith,
  if◌then◌else◌,
}

-- Latencies and the time-out of the HTTP client, in nanoseconds.
pub record Latencies : Type 0 where
  pub latency : ℕ
  pub latency_ipv6 : ℕ

module _ (timeout : ℕ) where
  unfoldable pub ipv4_enabled : Latencies → Bool
  ipv4_enabled s = ltb s.latency timeout

  unfoldable pub ipv6_enabled : Latencies → Bool
  ipv6_enabled s = ltb s.latency_ipv6 timeout

  -- The loop over the URLs, with the latency so far and whether the last request has failed; `get` says
  -- how long an answer takes, and `none` for an error.
  unfoldable pub probe : (Text → Option ℕ) → List Text → ℕ → Bool → ℕ
  probe get [] old failed = if failed then timeout else old
  probe get (url ∷ urls) old failed = elim (get url) [ some d ↦ d | none ↦ probe get urls old true ]

  -- One round, with what the requests over IPv4 and over IPv6 give.
  unfoldable pub healthcheck_round :
      (Text → Option ℕ) → (Text → Option ℕ) → List Text → Latencies → Latencies
  unfolding probe
  healthcheck_round get4 get6 urls s = record {
    latency = probe get4 urls s.latency false;
    latency_ipv6 = probe get6 urls s.latency_ipv6 false;
  }

  -- The rounds, one for each element of the list; without URLs there is none.
  unfoldable pub healthcheck :
      List ((Text → Option ℕ) × (Text → Option ℕ)) → List Text → Latencies → Latencies
  unfolding healthcheck_round
  healthcheck rounds [] s = record { latency = 0; latency_ipv6 = 0 }
  healthcheck [] (url ∷ urls) s = s
  healthcheck ((get4, get6) ∷ rounds) (url ∷ urls) s =
      healthcheck rounds (url ∷ urls) (healthcheck_round get4 get6 (url ∷ urls) s)

  -- Whether the first URL that answers does so within the time.
  abbrev pub answers_in_time : (Text → Option ℕ) → List Text → Bool
  answers_in_time get [] = false
  answers_in_time get (url ∷ urls) = elim (get url) [
    | some d ↦ ltb d timeout
    | none ↦ answers_in_time get urls
  ]

  probe_lem :
      (get : Text → Option ℕ) (urls : List Text) (old : ℕ)
      → ltb (probe get urls old true) timeout ≡ answers_in_time get urls
  unfolding probe
  probe_lem get [] old = ground arith
  probe_lem get (url ∷ urls) old = ground (arith, probe_lem get urls old)

  healthcheck_last :
      (rounds : List ((Text → Option ℕ) × (Text → Option ℕ))) (get4 get6 : Text → Option ℕ)
      (url : Text) (urls : List Text) (s : Latencies)
      → (t : Latencies) × (healthcheck (rounds ++ (get4, get6) ∷ []) (url ∷ urls) s
          ≡ healthcheck_round get4 get6 (url ∷ urls) t)
  unfolding healthcheck
  healthcheck_last [] get4 get6 url urls s = (s, refl)
  healthcheck_last ((g4, g6) ∷ rounds) get4 get6 url urls s =
      healthcheck_last rounds get4 get6 url urls (healthcheck_round g4 g6 (url ∷ urls) s)

  -- Where there is a URL, after any rounds an address family is enabled exactly if, in the last
  -- one, the first URL that answered over it did so within the time-out of the client; what was
  -- found before does not matter.
  healthcheck_enables :
      (rounds : List ((Text → Option ℕ) × (Text → Option ℕ))) (get4 get6 : Text → Option ℕ)
      (url : Text) (urls : List Text) (s : Latencies)
      → let s' = healthcheck (rounds ++ (get4, get6) ∷ []) (url ∷ urls) s in
        (ipv4_enabled s' ≡ answers_in_time get4 (url ∷ urls))
        × (ipv6_enabled s' ≡ answers_in_time get6 (url ∷ urls))
  unfolding healthcheck_round probe ipv4_enabled ipv6_enabled
  healthcheck_enables rounds get4 get6 url urls s =
      let (t, last) = healthcheck_last rounds get4 get6 url urls s in
      (
        ground (arith, last, probe_lem get4 urls t.latency),
        ground (arith, last, probe_lem get6 urls t.latency_ipv6),
      )
