-- ===== src/Examples/Data.antt =====
-- The lists and connections that the runs of the code begin with.
use toh.Base.{ℕ, Text, text, none, some, [], ◌∷◌, ◌++◌, same, if◌then◌else◌, ok, err}
use toh.Api.{BytesUsage, no_usage, Limit, Json}
use toh.Acl.State.{Acl, Key, StoKey, External}

-- A reader of sizes that knows one text, and an encoder of keys.
abbrev pub external : External
external = record {
  parse_bytes = λ s. if same s (text "1kB") then ok 1000 else err (text "unknown size");
  check_encode = λ version buf. version ++ buf;
}

abbrev pub alice_key : Key
alice_key = record {
  bytes_limit = 1000;
  in_bytes_limit = 0;
  out_bytes_limit = 300;
  bytes_usage = 0;
  whitelist = some (text "a.org/tcp" ∷ []);
  blacklist = none;
}

abbrev pub bob_key : Key
bob_key = record {
  bytes_limit = 0;
  in_bytes_limit = 0;
  out_bytes_limit = 0;
  bytes_usage = 1;
  whitelist = none;
  blacklist = none;
}

abbrev pub stored : Text → StoKey
stored key = record { name = text "user"; key = key; limit = none; bytes_usage = none }

abbrev pub used_cells : ℕ → BytesUsage
used_cells p = record { in_bytes = 200; out_bytes = 100 }

-- Two users, and the admin, whose key is "root".
abbrev pub two_users : Acl
two_users = record {
  admin_key = text "root";
  keys = (text "alice", alice_key) ∷ (text "bob", bob_key) ∷ [];
  sto_keys = stored (text "alice") ∷ stored (text "bob") ∷ [];
  cells = used_cells;
  next = 2;
  pending = 0;
}

abbrev pub size_limit : Text → Limit
size_limit s = record {
  bytes = s;
  in_bytes = [];
  out_bytes = [];
  whitelist = none;
  blacklist = none;
}

-- A stand-in for encoding/json that knows one limit.
abbrev pub one_limit_json : Limit → Json
one_limit_json l = record {
  encode_limit = λ o. text "a limit";
  decode_limit = λ s. ok l;
  encode_usage = λ u. text "a usage";
  decode_usage = λ s. ok no_usage;
  encode_keys = λ ks. text "keys";
  decode_keys = λ s. ok [];
}
