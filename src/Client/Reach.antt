-- ===== src/Client/Reach.antt =====
-- What the client of client/client.go reaches through the server of server/server.go.
use toh.Base.{
  Result-cases, Text, text, Text-discrete, ◌≡◌, refl, ◌↔◌, inl, inr, none, some, [], ◌∷◌, ◌++◌,
  true, length, ◌==◌, if◌then◌else◌, Result, ok, err, arith,
}
use toh.Spec.Types.{header_handshake_key, header_handshake_net, header_handshake_addr}
use toh.Base.HostPort.{split_host_port}
use toh.Acl.State.{Acl}
use toh.Acl.Access.{check}
use toh.Server.Stream.{
  Metadata, metadata_get, World, Served, Trace, serve_conn, stream_messages, serve_headers,
  serve_checked,
}
use toh.Client.{outside, tcp_or_udp, outgoing, established, dial, dial_context}

-- A stream to the server from a TCP address: what the handler has done with it.
abbrev pub opened : Acl → World → Text → Metadata → Result Text (Served × Trace)
opened a w ip md = ok (stream_messages a w (record { metadata = some md; peer = some (some ip) }))

-- The first message of the stream, or the end of the stream.
abbrev pub first_message : Served × Trace → Result Text Text
first_message (s, t) = elim t.sent [ some m ↦ ok m | none ↦ err (text "EOF") ]

abbrev pub IsOk {ℓ κ} : {E : Type ℓ} {A : Type κ} → Result E A → Type 0
IsOk (ok _) = Unit
IsOk (err _) = ⊥

outgoing_headers :
    (password network addr : Text)
    → (metadata_get header_handshake_key (outgoing password network addr) ≡ password ∷ [])
      × (metadata_get header_handshake_net (outgoing password network addr) ≡ network ∷ [])
      × (metadata_get header_handshake_addr (outgoing password network addr) ≡ addr ∷ [])
unfolding metadata_get outgoing Text-discrete
outgoing_headers password network addr = (refl, refl, refl)

served_lem :
    (a : Acl) (w : World) (ip password network addr : Text)
    → opened a w ip (outgoing password network addr)
      ≡ ok (serve_checked a w (some (some ip)) password network addr)
unfolding stream_messages serve_headers
served_lem a w ip password network addr =
    let (k, n, d) = outgoing_headers password network addr in
    rw (k, stream_messages) (rw (n, d) refl)

-- The server has dialled the address, has got the text of a remote address, and has sent it.
abbrev pub Reaches : World → Text → Text → Type 0
Reaches w network addr =
    (remote : Text) × (w.dial network addr ≡ ok remote)
    × (w.send remote ≡ none)
    × IsOk (split_host_port (if length remote == 0 then text "0.0.0.0:0" else remote))

-- What the first message is, once the stream has been served.
abbrev answer : Acl → World → Text → Text → Text → Text → Result Text Text
answer a w ip password network addr =
    first_message (serve_checked a w (some (some ip)) password network addr)

answer_iff :
    (a : Acl) (w : World) (ip password network addr m : Text)
    → (answer a w ip password network addr ≡ ok m)
      ↔ ((check a password network addr ≡ none) × (w.dial network addr ≡ ok m) × (w.send m ≡ none))
unfolding serve_checked serve_conn
answer_iff a w ip password network addr m = ground arith

abbrev shown : Text → Text
shown m = if length m == 0 then text "0.0.0.0:0" else m

module _ {C : Type 0} (open_stream : Metadata → Result Text C) (first : C → Result Text Text)
    (password network addr : Text) (c : C) where
  dial_told :
      (m : Text)
      → open_stream (outgoing password network addr) ≡ ok c
      → first c ≡ ok m
      → dial open_stream first password network addr ≡ established open_stream first network c m
  unfolding dial
  dial_told m opens tells = ground arith

  dial_ended :
      (e : Text)
      → open_stream (outgoing password network addr) ≡ ok c
      → first c ≡ err e
      → dial open_stream first password network addr
        ≡ err (outside (text "failed to extablish remote conn: " ++ e))
  unfolding dial
  dial_ended e opens ends = ground arith

module _ (a : Acl) (w : World) (ip password network addr : Text) where
  abbrev stream : Served × Trace
  stream = serve_checked a w (some (some ip)) password network addr

  established_iff :
      (m : Text)
      → tcp_or_udp network ≡ true
      → IsOk (established (opened a w ip) first_message network stream m)
        ↔ IsOk (split_host_port (shown m))
  unfolding established
  established_iff m supported = elim (Result-cases (split_host_port (shown m))) [
    | inl (p, split) ↦ rw (supported, established) (rw split (ground arith))
    | inr (e, unsplit) ↦ rw (supported, established) (rw unsplit (ground arith))
  ]

  dial_iff :
      tcp_or_udp network ≡ true
      → IsOk (dial (opened a w ip) first_message password network addr)
        ↔ ((check a password network addr ≡ none) × Reaches w network addr)
  dial_iff supported =
      let served = served_lem a w ip password network addr in
      elim (Result-cases (answer a w ip password network addr)) [
        | inr (e, ended) ↦
            rw
              (dial_ended (opened a w ip) first_message password network addr stream e served ended)
              (
                λ impossible. absurd impossible,
                λ (passed, (m, dialled, says, splits)).
                    let told : answer a w ip password network addr ≡ ok m =
                      (answer_iff a w ip password network addr m).1 (passed, dialled, says) in
                    cc (told, ended),
              )
        | inl (m, told) ↦
            rw (dial_told (opened a w ip) first_message password network addr stream m served told)
              (ground
                (arith, answer_iff a w ip password network addr m, established_iff m supported))
      ]

-- For a client behind a TCP address: dialling through the server succeeds exactly for the networks of
-- TCP and UDP, if `Check` at the server lets the password through for that network and address, and
-- the server reaches the address and can say so.
pub dial_context_iff :
    (a : Acl) (w : World) (ip password network addr : Text)
    → IsOk (dial_context (opened a w ip) first_message password network addr) ↔ (
        (tcp_or_udp network ≡ true)
        × (check a password network addr ≡ none)
        × Reaches w network addr)
unfolding dial_context
dial_context_iff a w ip password network addr =
    ground (arith, dial_iff a w ip password network addr)
