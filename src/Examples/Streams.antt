-- ===== src/Examples/Streams.antt =====
-- The theorems on spec/ and socks5/ at short messages.
use toh.Base.{
  ℕ, ◌≡◌, refl, Text, text, Option, none, List, [], ◌∷◌, ◌++◌, inl, Result, ok, err, arith, take,
}
use toh.Spec.Conn.{StreamConn, Conn, new_conn}
use toh.Spec.Conn.Reassembly.{reads, unread, reads-unread}
use toh.Socks5.Udp.{Peer, decode_socks5_packet, reply_packet, pipe_socks5_udp}
use toh.Socks5.Udp.Relay.{pipe_socks5_udp-answers}
use toh.Socks5.Udp.Format.{shortest, IsBuilt, decode_sound}

-- A connection whose state is the messages that are still to come.
take_message : List Text → Result Text Text × List Text
take_message [] = (err (text "closed"), [])
take_message (m ∷ ms) = (ok m, ms)

all_bytes : List Text → Text
all_bytes [] = []
all_bytes (m ∷ ms) = m ++ all_bytes ms

abbrev queue : StreamConn
queue = record {
  State = List Text;
  read = λ deadline ms. take_message ms;
  write = λ deadline b ms. (none, ms);
  close = λ code reason ms. (none, ms);
}

queue_delivers :
    (d : Option ℕ) (s : List Text) (m : Text) (s' : List Text)
    → take_message s ≡ (ok m, s')
    → all_bytes s ≡ m ++ all_bytes s'
unfolding take_message all_bytes
queue_delivers d [] m s' h = cc
queue_delivers d (n ∷ ns) m s' h = cc h

queue_keeps :
    (d : Option ℕ) (s : List Text) (e : Text) (s' : List Text)
    → take_message s ≡ (err e, s')
    → all_bytes s ≡ all_bytes s'
unfolding take_message all_bytes
queue_keeps d [] e s' h = cc h
queue_keeps d (n ∷ ns) e s' h = cc

abbrev two_messages : Conn queue
two_messages = new_conn queue (text "hello" ∷ text "world" ∷ []) (text "peer")

reads-unread_example :
    let (bytes, c) =
      reads queue all_bytes queue_delivers queue_keeps (2 ∷ 9 ∷ 3 ∷ []) two_messages in
    bytes ++ unread queue all_bytes queue_delivers queue_keeps c
    ≡ unread queue all_bytes queue_delivers queue_keeps two_messages
reads-unread_example =
    reads-unread queue all_bytes queue_delivers queue_keeps (2 ∷ 9 ∷ 3 ∷ []) two_messages

abbrev localhost : Text
localhost = 127 ∷ 0 ∷ 0 ∷ 1 ∷ []

-- A resolver that answers on port 53.
abbrev answers : Text → Text → Peer
answers addr content = record {
  dial_error = none;
  write_error = none;
  answer = ok (text "10.0.0.1");
}

pipe_socks5_udp-answers_example :
    (back : Text) × (pipe_socks5_udp answers (reply_packet localhost 53 (text "data")) ≡ ok back)
    × (decode_socks5_packet back
        ≡ ok
            (record { ip = shortest localhost; port = 53; payload = take 16384 (text "10.0.0.1") }))
pipe_socks5_udp-answers_example =
    pipe_socks5_udp-answers answers localhost 53 (text "data") (text "10.0.0.1") (inl refl)
      (omega arith) refl

decode_sound_example :
    IsBuilt
      (0 ∷ 0 ∷ 0 ∷ 1 ∷ 127 ∷ 0 ∷ 0 ∷ 1 ∷ 0 ∷ 53 ∷ 97 ∷ [])
      (record { ip = localhost; port = 53; payload = text "a" })
unfolding decode_socks5_packet
decode_sound_example =
    decode_sound (0 ∷ 0 ∷ 0 ∷ 1 ∷ 127 ∷ 0 ∷ 0 ∷ 1 ∷ 0 ∷ 53 ∷ 97 ∷ [])
      (record { ip = localhost; port = 53; payload = text "a" }) (ground arith) refl
