-- ===== src/Cmd/Cobra.antt =====
-- What the programs under cmd/ declare to the package cobra, and what they ask of it. The package
-- itself is a parameter: how it takes the flags out of the arguments, and gives them to a command.
use toh.Base.{
  ℕ, Text, Bool, List, [], ◌∷◌, ◌++◌, Result, ok, same, if◌then◌else◌, All, ◌≡◌, true, false, ◌&&◌,
}

pub data Kind : Type 0 where
  string_flag bool_flag slice_flag : Kind

-- A flag with the text of its default.
pub record Flag : Type 0 where
  pub name : Text
  pub kind : Kind
  pub default : Text

-- `Args`; `legacy_args` is the policy of a command that sets none.
pub data ArgPolicy : Type 0 where
  no_args legacy_args : ArgPolicy
  exact_args minimum_args : ℕ → ArgPolicy

-- A command below a root, with the names on the way to it: its own flags, those that it hands on to the
-- commands below it, and which of them are required. `A` is the type of what the commands run.
pub record Command (A : Type 0) : Type 0 where
  pub path : List Text
  pub args : ArgPolicy
  pub flags : List Flag
  pub persistent_flags : List Flag
  pub required : List Text
  pub action : A

-- The readers of the flags of a command: `GetString`, `GetBool` and `GetStringSlice`.
pub record Reader (F : Type 0) : Type 0 where
  pub get_string : F → Text → Result Text Text
  pub get_bool : F → Text → Result Text Bool
  pub get_string_slice : F → Text → Result Text (List Text)

-- A reader gives a value for a flag of this kind and name.
abbrev pub Gives : {F : Type 0} → Reader F → F → Kind → Text → Type 0
Gives r f string_flag name = (v : Text) × (r.get_string f name ≡ ok v)
Gives r f bool_flag name = (v : Bool) × (r.get_bool f name ≡ ok v)
Gives r f slice_flag name = (v : List Text) × (r.get_string_slice f name ≡ ok v)

-- What cobra promises of a command's flags: each that has been declared for it can be read.
abbrev pub Serves : {F : Type 0} → Reader F → F → List Flag → Type 0
Serves r f = All (λ d. Gives r f d.kind d.name)

abbrev pub is_prefix : List Text → List Text → Bool
is_prefix [] path = true
is_prefix (p ∷ ps) [] = false
is_prefix (p ∷ ps) (q ∷ qs) = same p q && is_prefix ps qs

abbrev pub handed_on : {A : Type 0} → List (Command A) → List Text → List Flag
handed_on [] path = []
handed_on (c ∷ cs) path =
    let rest = handed_on cs path in
    if is_prefix c.path path then c.persistent_flags ++ rest else rest

-- The flags that a command has: its own, and the persistent ones of the commands on the way to it.
abbrev pub flags_of : {A : Type 0} → List (Command A) → Command A → List Flag
flags_of all c = c.flags ++ handed_on all c.path
