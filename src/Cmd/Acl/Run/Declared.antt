-- ===== src/Cmd/Acl/Run/Declared.antt =====
-- The commands of `toh acl` (cmd/acl) ask for no flag that has not been declared for them.
use toh.Base.{
  Text, text, Text-discrete, ◌≡◌, subst, inl, inr, Any, List, [], ◌∷◌, All, Result, ok, err, arith,
}
use toh.Api.{Request, Response, Json}
use toh.Api.Client.{ClientError}
use toh.Cmd.Acl.{LimitOptions}
use toh.Cmd.Cobra.{Gives, string_flag, bool_flag, Command, Reader, Serves, flags_of}
use toh.Cmd.Acl.Run.{
  Printed, flag_error, client_error, Action, process_limit_options, Outcome, printed, with_flag,
  run, commands,
}

-- One after the other, for each element of a list.
infixr 5 ◌⊗◌
abbrev ◌⊗◌ : {A B : Type 0} → A → B → A × B
a ⊗ b = (a, b)

All-Any : {A : Type 0} (P : A → Type 0) (xs : List A) (x : A) → All P xs → Any (λ y. y ≡ x) xs → P x
All-Any P [] x all there = absurd there
All-Any P (y ∷ ys) x (here, rest) (inl e) = subst P e here
All-Any P (y ∷ ys) x (here, rest) (inr later) = All-Any P ys x rest later

limit_options :
    {F : Type 0} (r : Reader F) (f : F)
    → Gives r f string_flag (text "key")
    → Gives r f bool_flag (text "reset")
    → Gives r f string_flag (text "bytes")
    → Gives r f string_flag (text "in-bytes")
    → Gives r f string_flag (text "out-bytes")
    → (opts : LimitOptions) × (process_limit_options r f ≡ ok opts)
unfolding process_limit_options
limit_options r f (key, h) (reset, h₁) (bytes, h₂) (in_bytes, h₃) (out_bytes, h₄) = (
  record { key = key; reset = reset; bytes = bytes; in_bytes = in_bytes; out_bytes = out_bytes },
  ground (arith, h, h₁, h₂, h₃, h₄),
)

module _ {W F : Type 0} (json : Json) (admin_key : Text)
    (transport : Request → W → Result Text Response × W) (r : Reader F) where
  -- A command has not ended because of a flag.
  abbrev pub IsRead : Outcome json admin_key transport r → Type 0
  IsRead (ok p, w) = Unit
  IsRead (err (flag_error e), w) = ⊥
  IsRead (err (client_error e), w) = Unit

  printed-IsRead :
      {A : Type 0} (show : A → Printed) (x : Result ClientError A × W)
      → IsRead (printed json admin_key transport r show x)
  printed-IsRead show (ok a, w) = tt
  printed-IsRead show (err e, w) = tt

  flag-IsRead :
      {A : Type 0} (read : Result Text A) (v : A) (k : A → W → Outcome json admin_key transport r)
      (w : W)
      → read ≡ ok v
      → IsRead (k v w)
      → IsRead (with_flag json admin_key transport r read k w)
  flag-IsRead read v k w e h = rw e h

  -- A command does not end because of a flag, if each of its own and of those handed on has a value.
  abbrev IsServed : Command Action → Type 0
  IsServed c =
      (f : F)
      → Serves r f (flags_of commands c)
      → (args : List Text) (w : W) → IsRead (run json admin_key transport r c.action f args w)

  -- What a command does after it has read one flag.
  one_flag :
      {A B : Type 0} (read : Result Text A) (show : B → Printed)
      (call : A → W → Result ClientError B × W)
      → (v : A) × (read ≡ ok v)
      → (w : W)
      → IsRead (
          with_flag json admin_key transport r read
            (λ a w'. printed json admin_key transport r show (call a w'))
            w)
  one_flag read show call (v, e) w = flag-IsRead read v _ w e (printed-IsRead show (call v w))

  all-IsServed : All IsServed commands
  unfolding run Text-discrete
  all-IsServed =
      (λ f h args w. tt)
      ⊗ (λ f h args w. one_flag _ _ _ h.0 w)
      ⊗ (λ f h args w. one_flag _ _ _ h.0 w)
      ⊗ (λ f (key, (reset, (bytes, (in_bytes, (out_bytes, rest))))) args w.
          one_flag _ _ _ (limit_options r f key reset bytes in_bytes out_bytes) w)
      ⊗ (λ f (key, (reset, rest)) args w. flag-IsRead _ reset.0 _ w reset.1 (one_flag _ _ _ key w))
      ⊗ (λ f h args w. printed-IsRead _ _)
      ⊗ (λ f h args w. tt)
      ⊗ (λ f (server, (admin, (key, rest))) args w. one_flag _ _ _ key w)
      ⊗ (λ f (server, (admin, (key, rest))) args w. one_flag _ _ _ key w)
      ⊗ (λ f (server, (admin, (key, rest))) args w. one_flag _ _ _ key w)
      ⊗ (λ f h args w. tt)
      ⊗ (λ f (server, (admin, (key, rest))) args w. one_flag _ _ _ key w)
      ⊗ (λ f (server, (admin, (key, rest))) args w. one_flag _ _ _ key w)
      ⊗ (λ f (server, (admin, (key, rest))) args w. one_flag _ _ _ key w)
      ⊗ tt

  -- For a command that is declared, and a reader that gives a value for each of its flags, its own and
  -- those that the commands above hand on: whatever the arguments, the command does not end because a
  -- flag cannot be read.
  pub commands-IsRead :
      (c : Command Action) (f : F) (args : List Text) (w : W)
      → Any (λ d. d ≡ c) commands
      → Serves r f (flags_of commands c)
      → IsRead (run json admin_key transport r c.action f args w)
  commands-IsRead c f args w declared served =
      All-Any IsServed commands c all-IsServed declared f served args w
