-- ===== src/Dns/Resolver.antt =====
-- The resolver that asks one server after the other (dns/query.go).
pub mod Order
use toh.Base.{
  ℕ, Text, text, Option, none, some, List, [], ◌∷◌, ◌++◌, ◌==◌, if◌then◌else◌, Result, ok, err,
}
use toh.Base.ParseIp.{parse_ip}
use toh.Dns.Cache.{Rr, rr_a, rr_aaaa, rr_other, Msg}
use toh.Dns.Lookup.{type_a, type_aaaa, question_for}

pub record Resolver : Type 0 where
  pub ipv4_servers : List Text
  pub ipv6_servers : List Text
  pub exchange : Text → Msg → Result Text Msg

unfoldable pub default_resolver : (Text → Msg → Result Text Msg) → Resolver
default_resolver exchange = record {
  ipv4_servers = text "8.8.8.8:53" ∷ text "223.5.5.5:53" ∷ [];
  ipv6_servers = text "[2001:4860:4860::8888]:53" ∷ text "[2400:3200::1]:53" ∷ [];
  exchange = exchange;
}

pub data ResolveError : Type 0 where
  exchange_failed : Text → ResolveError
  type_a_not_found type_aaaa_not_found : ResolveError
  type_not_found : ℕ → ResolveError

-- The loop over the servers, which stops at the first answer. `resp` and `err` are what the last round
-- has assigned: at first there is neither an answer nor an error.
unfoldable pub ask_servers :
    (Text → Msg → Result Text Msg)
    → Msg
    → List Text
    → Result Text (Option Msg)
    → Result Text (Option Msg)
ask_servers exchange q [] last = last
ask_servers exchange q (s ∷ servers) last = elim (exchange s q) [
  | ok m ↦ ok (some m)
  | err e ↦ ask_servers exchange q servers (err e)
]

abbrev pub addresses : List Rr → List Text
addresses [] = []
addresses (rr_a _ ip ∷ rest) = ip ∷ addresses rest
addresses (rr_aaaa _ ip ∷ rest) = ip ∷ addresses rest
addresses (rr_other _ ∷ rest) = addresses rest

abbrev pub not_found : ℕ → ResolveError
not_found t =
    if t == type_a
    then type_a_not_found
    else if t == type_aaaa
    then type_aaaa_not_found
    else type_not_found t

abbrev pub chosen : ℕ → List Text → Result ResolveError (List Text)
chosen t [] = err (not_found t)
chosen t (ip ∷ ips) = ok (ip ∷ ips)

-- `none` is the panic on a nil response, where there is no server.
unfoldable pub resolved : ℕ → Result Text (Option Msg) → Option (Result ResolveError (List Text))
resolved t (err e) = some (err (exchange_failed e))
resolved t (ok none) = none
resolved t (ok (some resp)) = some (chosen t (addresses resp.answers))

unfoldable pub lookup_ip :
    (Text → Text) → ℕ → Resolver → Text → ℕ → Option (Result ResolveError (List Text))
unfolding ask_servers resolved parse_ip
lookup_ip fqdn id r host t = elim (parse_ip host) [
  | some ip ↦ some (ok (ip ∷ []))
  | none ↦ resolved t (
      ask_servers r.exchange (question_for fqdn id host t) (r.ipv4_servers ++ r.ipv6_servers)
        (ok none))
]

unfoldable pub lookup_ip4 :
    (Text → Text)
    → ℕ
    → (Text → Msg → Result Text Msg)
    → Text
    → Option (Result ResolveError (List Text))
unfolding lookup_ip default_resolver
lookup_ip4 fqdn id exchange host = lookup_ip fqdn id (default_resolver exchange) host type_a

unfoldable pub lookup_ip6 :
    (Text → Text)
    → ℕ
    → (Text → Msg → Result Text Msg)
    → Text
    → Option (Result ResolveError (List Text))
unfolding lookup_ip default_resolver
lookup_ip6 fqdn id exchange host = lookup_ip fqdn id (default_resolver exchange) host type_aaaa
