-- ===== src/Spec/Conn.antt =====
-- `Conn` of spec/spec.go: a byte stream on top of a connection that carries whole messages.
pub mod Reassembly
use toh.Base.{
  ℕ, ◌<◌, Text, text, same, Bool, true, false, ◌||◌, Option, none, some, List, [], ◌∷◌, length,
  take, drop, ltb, if◌then◌else◌, Result, ok, err,
}
use toh.Base.Strings.{contains}

-- The interface `StreamConn` over an unknown state; a deadline is a time, `none` where there is
-- none. An operation gives the new state and what Go returns, an error being its text.
pub record StreamConn : Type 1 where
  pub State : Type 0
  pub read : Option ℕ → State → Result Text Text × State
  pub write : Option ℕ → Text → State → Option Text × State
  pub close : ℕ → Text → State → Option Text × State

pub data ReadError : Type 0 where
  end_of_file : ReadError
  failed : Text → ReadError

module _ (S : StreamConn) where
  pub record Conn : Type 0 where
    pub conn : S.State
    pub addr : Text
    pub read_deadline : Option ℕ
    pub write_deadline : Option ℕ
    pub buf : Option Text

  unfoldable pub new_conn : S.State → Text → Conn
  new_conn conn addr = record {
    conn = conn;
    addr = addr;
    read_deadline = none;
    write_deadline = none;
    buf = none;
  }

  -- What `copy(b, src)` leaves of `src`, where `b` has room for `n` bytes.
  abbrev pub left_over : ℕ → Text → Option Text
  left_over n src = if ltb (length (take n src)) (length src) then some (drop n src) else none

  unfoldable pub is_normal_closure : Text → Bool
  is_normal_closure e = contains e (text "StatusNormalClosure") || contains e (text "1000")

  -- `finish_read n c r`: `Read` from the answer of the underlying connection on.
  unfoldable pub finish_read : ℕ → Conn → Result Text Text × S.State → Result ReadError Text × Conn
  unfolding is_normal_closure
  finish_read n c (err e, s) =
      (err (if is_normal_closure e then end_of_file else failed e), record c { conn = s })
  finish_read n c (ok wsb, s) = (
    ok (take n wsb),
    if ltb (length (take n wsb)) (length wsb)
        then record c { conn = s; buf = some (drop n wsb) }
        else record c { conn = s },
  )

  -- `Read` into a buffer of `n` bytes; the result is what stands in the first bytes of the buffer.
  unfoldable pub read : ℕ → Conn → Result ReadError Text × Conn
  unfolding finish_read
  read n c = elim c.buf [
    | some b ↦ (ok (take n b), record c { buf = left_over n b })
    | none ↦ finish_read n c (S.read c.read_deadline c.conn)
  ]

  -- `Write` gives the length of all of `b`, and the error.
  unfoldable pub write : Text → Conn → ℕ × Option Text × Conn
  write b c = let (e, s) = S.write c.write_deadline b c.conn in (length b, e, record c { conn = s })

  unfoldable pub close : Conn → Option Text × Conn
  close c =
      let (e, s) = S.close 1000 (text "StatusNormalClosure") c.conn in (e, record c { conn = s })

  unfoldable pub set_deadline : ℕ → Conn → Conn
  set_deadline t c = record c { read_deadline = some t; write_deadline = some t }

  unfoldable pub set_read_deadline : ℕ → Conn → Conn
  set_read_deadline t c = record c { read_deadline = some t }

  unfoldable pub set_write_deadline : ℕ → Conn → Conn
  set_write_deadline t c = record c { write_deadline = some t }

  -- `PacketConnWrapper.WriteTo`: `none` as the first part is the error of another address.
  unfoldable pub write_to : Text → Text → Conn → Option (ℕ × Option Text) × Conn
  unfolding write
  write_to b to c =
      if same c.addr to then (let (n, e, c') = write b c in (some (n, e), c')) else (none, c)

  unfoldable pub read_from : ℕ → Conn → Result ReadError Text × Text × Conn
  unfolding read
  read_from n c = let (r, c') = read n c in (r, c.addr, c')
