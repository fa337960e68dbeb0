-- ===== src/Server/Stream/Access.antt =====
-- Whom the handler of server/server.go serves.
use toh.Base.{
  Text, sym, ap, ◌∙◌, ◌≢◌, inl, inr, Option-cases, ◌≡◌, refl, ◌↔◌, ◌⊎◌, Option, none, some, List,
  [], ◌∷◌, arith,
}
use toh.Spec.Types.{header_handshake_key, header_handshake_net, header_handshake_addr}
use toh.Acl.State.{Acl}
use toh.Acl.Access.{check}
use toh.Server.Stream.{
  Metadata, metadata_get, StreamContext, World, panicked, serve_conn, serve_checked, serve_headers,
  stream_messages,
}

-- The request of a stream: a key, a network and an address, from a TCP peer.
abbrev pub Requests : StreamContext → Text → Text → Text → Type 0
Requests c key network addr =
    (md : Metadata) × (ip : Text) × (keys nets addrs : List Text) × (c.metadata ≡ some md)
    × (c.peer ≡ some (some ip))
    × (metadata_get header_handshake_key md ≡ key ∷ keys)
    × (metadata_get header_handshake_net md ≡ network ∷ nets)
    × (metadata_get header_handshake_addr md ≡ addr ∷ addrs)

-- Some header is missing.
abbrev pub Lacks : Metadata → Type 0
Lacks md =
    (metadata_get header_handshake_key md ≡ [])
    ⊎ (metadata_get header_handshake_net md ≡ [])
    ⊎ (metadata_get header_handshake_addr md ≡ [])

conn_dials :
    (w : World) (network addr : Text) → (serve_conn w network addr).1.dialled ≡ some (network, addr)
unfolding serve_conn
conn_dials w network addr = ground arith

pair-injective :
    (n d network addr : Text)
    → ◌≡◌ {A = Option (Text × Text)} (some (n, d)) (some (network, addr))
    → (n ≡ network) × (d ≡ addr)
pair-injective n d network addr h = ground arith

checked_dials :
    (a : Acl) (w : World) (p : Option (Option Text)) (key n d network addr : Text)
    → (serve_checked a w p key n d).1.dialled ≡ some (network, addr)
    → ((ip : Text) × (p ≡ some (some ip))) × (n ≡ network) × (d ≡ addr) × (check a key n d ≡ none)
unfolding serve_checked
checked_dials a w none key n d network addr h = cc h
checked_dials a w (some none) key n d network addr h = cc h
checked_dials a w (some (some ip)) key n d network addr h = elim (Option-cases (check a key n d)) [
  | inl passed ↦
      let here : (serve_conn w n d).1.dialled ≡ some (network, addr) =
        rw (passed, serve_checked) at h in
      let both = pair-injective n d network addr (sym (conn_dials w n d) ∙ here) in
      ((ip, refl), both.0, both.1, passed)
  | inr (e, refused) ↦ cc (rw (refused, serve_checked) at h)
]

-- The first of each list is what is asked for.
headers_dials :
    (a : Acl) (w : World) (p : Option (Option Text)) (ks ns ds : List Text) (network addr : Text)
    → (serve_headers a w p ks ns ds).1.dialled ≡ some (network, addr)
    → (key : Text) × (ip : Text) × (keys nets addrs : List Text) × (p ≡ some (some ip))
      × (ks ≡ key ∷ keys)
      × (ns ≡ network ∷ nets)
      × (ds ≡ addr ∷ addrs)
      × (check a key network addr ≡ none)
unfolding serve_headers
headers_dials a w p [] ns ds network addr h = cc h
headers_dials a w p (k ∷ ks) [] ds network addr h = cc h
headers_dials a w p (k ∷ ks) (n ∷ ns) [] network addr h = cc h
headers_dials a w p (k ∷ ks) (n ∷ ns) (d ∷ ds) network addr h =
    let ((ip, tcp), same_net, same_addr, passed) = checked_dials a w p k n d network addr h in
    (
      k,
      ip,
      ks,
      ns,
      ds,
      tcp,
      refl,
      ap (λ t. t ∷ ns) same_net,
      ap (λ t. t ∷ ds) same_addr,
      cc (same_net, same_addr, passed),
    )

-- Whatever the metadata, the peer and the world: the handler dials an address only if that is the
-- address of the first header of its name, and `Check` lets the first key through for it and the first
-- network.
pub stream_messages_dials :
    (a : Acl) (w : World) (c : StreamContext) (network addr : Text)
    → (stream_messages a w c).1.dialled ≡ some (network, addr)
    → (key : Text) × Requests c key network addr × (check a key network addr ≡ none)
unfolding stream_messages
stream_messages_dials a w c network addr h = elim (Option-cases c.metadata) [
  | inl missing ↦ cc (rw (missing, stream_messages) at h)
  | inr (md, there) ↦
      let here : (serve_headers a w c.peer (metadata_get header_handshake_key md)
            (metadata_get header_handshake_net md)
            (metadata_get header_handshake_addr md)).1.dialled
          ≡ some (network, addr) =
        rw (there, stream_messages) at h in
      let (key, ip, keys, nets, addrs, tcp, has_key, has_net, has_addr, passed) =
        headers_dials a w c.peer (metadata_get header_handshake_key md)
          (metadata_get header_handshake_net md) (metadata_get header_handshake_addr md) network
          addr here in
      (key, (md, ip, keys, nets, addrs, there, tcp, has_key, has_net, has_addr), passed)
]

checked_finishes :
    (a : Acl) (w : World) (p : Option (Option Text)) (key n d : Text)
    → (serve_checked a w p key n d).0 ≢ panicked
unfolding serve_checked serve_conn
checked_finishes a w none key n d e = ground arith
checked_finishes a w (some none) key n d e = ground arith
checked_finishes a w (some (some ip)) key n d e = ground arith

headers_panic :
    (a : Acl) (w : World) (p : Option (Option Text)) (ks ns ds : List Text)
    → ((serve_headers a w p ks ns ds).0 ≡ panicked) ↔ ((ks ≡ []) ⊎ (ns ≡ []) ⊎ (ds ≡ []))
unfolding serve_headers
headers_panic a w p [] ns ds = ground arith
headers_panic a w p (k ∷ ks) [] ds = ground arith
headers_panic a w p (k ∷ ks) (n ∷ ns) [] = ground arith
headers_panic a w p (k ∷ ks) (n ∷ ns) (d ∷ ds) = ground (arith, checked_finishes a w p k n d)

-- The handler panics exactly if the metadata of a stream lacks one of the three headers, whoever
-- opens the stream and whatever key it gives.
pub stream_messages_panics :
    (a : Acl) (w : World) (c : StreamContext) (md : Metadata)
    → c.metadata ≡ some md
    → ((stream_messages a w c).0 ≡ panicked) ↔ Lacks md
unfolding stream_messages
stream_messages_panics a w c md there = rw there (
    headers_panic a w c.peer (metadata_get header_handshake_key md)
      (metadata_get header_handshake_net md) (metadata_get header_handshake_addr md))
