-- ===== src/Server/Start/First.antt =====
-- A server that is started for the first time, and a client that uses the key that it has made
-- (server/server.go, server/acl/acl.go and client/client.go).
use toh.Base.{Text, ◌≡◌, ◌↔◌, ◌&&◌, true, false, none, some, [], ◌∷◌, ltb, length, ok, arith}
use toh.Base.Dict.{lookup, insert}
use toh.Acl.State.{External}
use toh.Acl.Quota.{in_bytes_limited, out_bytes_limited}
use toh.Acl.Access.{check_usage, check_key, check_lists, check}
use toh.Acl.Change.{apply_acl_key_limit}
use toh.Acl.Storage.{
  Codec, Disk, no_faults, first_storage, allocate, load_at, load_key, load_keys, load, open_acl,
  new_acl,
}
use toh.Server.Stream.{World}
use toh.Server.Start.{Options, TohServer, new_toh_server}
use toh.Client.{dial_context, tcp_or_udp}
use toh.Client.Reach.{opened, first_message, Reaches, IsOk, dial_context_iff}

module _ (x : External) (json : Codec) (random : Text) where
  abbrev pub default_key : Text
  default_key = x.check_encode random (0 ∷ 0 ∷ [])

  loaded-check :
      (admin_key network addr : Text)
      → check (load x admin_key (first_storage x json random)) default_key network addr ≡ none
  unfolding load load_keys load_key load_at allocate first_storage check check_key check_lists
      check_usage in_bytes_limited out_bytes_limited apply_acl_key_limit lookup insert
  loaded-check admin_key network addr = ground arith

  -- Where there is no file yet, no system call fails, and the admin key is empty or has 16 bytes or
  -- more: the server starts, and writes a file with one key; and a client with that key, behind any
  -- TCP address, reaches an address through the server exactly for the networks of TCP and UDP, if
  -- the server reaches it.
  pub first_start_connects :
      (options : Options) (disk : Disk) (w : World) (ip network addr : Text)
      → disk.acl_file ≡ none
      → (ltb 0 (length options.admin_key) && ltb (length options.admin_key) 16) ≡ false
      → let (started, disk') = new_toh_server x json random no_faults options disk in
        (s : TohServer) × (started ≡ ok s)
        × (disk'.acl_file ≡ some (json.encode (first_storage x json random)))
        × (IsOk (dial_context (opened s.acl w ip) first_message default_key network addr)
            ↔ ((tcp_or_udp network ≡ true) × Reaches w network addr))
  unfolding new_toh_server new_acl open_acl
  first_start_connects options disk w ip network addr missing fine =
      let a = load x options.admin_key (first_storage x json random) in
      (
        record { options = options; acl = a },
        ground (arith, missing, fine),
        ground (arith, missing, fine),
        ground (
          arith,
          dial_context_iff a w ip default_key network addr,
          loaded-check options.admin_key network addr,
        ),
      )
