-- ===== src/Socks5/Options.antt =====
-- The options of the proxies, and what `NewSocks5Server` makes of them (socks5/socks5.go). The two
-- functions that dial, and the handlers, are arguments where they are used.
use toh.Base.{
  ℕ, ◌%◌, Text, text, same, Bool, [], ◌∷◌, ◌==◌, if◌then◌else◌, some, none, Result, ok, err,
}
use toh.Base.Net.{to4, ip_string}

pub record Options : Type 0 where
  pub listen : Text
  pub advertise_ip : Text
  pub advertise_port : ℕ

-- What `net.ResolveTCPAddr` gives; a nil IP is the empty text.
pub record TcpAddr : Type 0 where
  pub ip : Text
  pub port : ℕ

-- `ip.Equal(net.IPv4zero)`
abbrev pub is_zero_v4 : Text → Bool
is_zero_v4 ip = elim (to4 ip) [ some v4 ↦ same v4 (0 ∷ 0 ∷ 0 ∷ 0 ∷ []) | none ↦ same ip [] ]

-- The two assignments, once the address to listen on is known. `ip == nil` is a case of the test.
unfoldable pub advertised : TcpAddr → Options → Options
unfolding to4 ip_string
advertised at opts = record opts {
  advertise_ip =
      if same opts.advertise_ip []
      then (if is_zero_v4 at.ip then text "127.0.0.1" else ip_string at.ip)
      else opts.advertise_ip;
  advertise_port = if opts.advertise_port == 0 then at.port % 65536 else opts.advertise_port;
}

unfoldable pub new_socks5_server : (Text → Result Text TcpAddr) → Options → Result Text Options
unfolding advertised
new_socks5_server resolve opts = elim (resolve opts.listen) [
  | err e ↦ err e
  | ok at ↦ ok (advertised at opts)
]
