-- ===== src/Api.antt =====
-- The values that the server and its admin clients exchange as JSON (server/api/api.go). A pointer
-- that may be nil is an `Option`, and so is a slice whose nil the program tells from the empty one.
pub mod Client
use toh.Base.{ℕ, Text, Option, none, List, [], some, Result}

pub record BytesUsage : Type 0 where
  pub in_bytes : ℕ
  pub out_bytes : ℕ

abbrev pub no_usage : BytesUsage
no_usage = record { in_bytes = 0; out_bytes = 0 }

pub record Limit : Type 0 where
  pub bytes : Text
  pub in_bytes : Text
  pub out_bytes : Text
  pub whitelist : Option (List Text)
  pub blacklist : Option (List Text)

abbrev pub no_limit : Limit
no_limit = record { bytes = []; in_bytes = []; out_bytes = []; whitelist = none; blacklist = none }

pub record ApiKey : Type 0 where
  pub name : Text
  pub key : Text
  pub limit : Option Limit
  pub bytes_usage : Option BytesUsage

-- An HTTP request as the admin handlers see it: the header with the handshake key, the parameters
-- `name` and `key` of the query (empty where absent), and the body, if there is one. Escaping a
-- parameter for the URL and taking it out again cancel each other.
pub data Method : Type 0 where
  get post patch delete other : Method

pub record Request : Type 0 where
  pub method : Method
  pub path : Text
  pub handshake_key : Text
  pub name : Text
  pub key : Text
  pub body : Option Text

pub record Response : Type 0 where
  pub status : ℕ
  pub body : Text

-- Go's package encoding/json on the three types of body.
pub record Json : Type 0 where
  pub encode_limit : Option Limit → Text
  pub decode_limit : Text → Result Text Limit
  pub encode_usage : BytesUsage → Text
  pub decode_usage : Text → Result Text BytesUsage
  pub encode_keys : List ApiKey → Text
  pub decode_keys : Text → Result Text (List ApiKey)

-- `omitempty` leaves an empty list out, and what is left out decodes to nil.
abbrev pub tidy_list : Option (List Text) → Option (List Text)
tidy_list (some []) = none
tidy_list l = l

abbrev pub tidy : Limit → Limit
tidy l = record l { whitelist = tidy_list l.whitelist; blacklist = tidy_list l.blacklist }
