-- ===== src/Lib.antt =====
-- ToH: local SOCKS5 and HTTP proxies whose connections go through a gRPC server, which checks each one
-- against an access control list.
--
-- The parts, and how they interact:
--
-- `toh s5` (cmd/s5) reads its configuration and starts a SOCKS5 server (socks5/socks5.go for streams,
-- socks5/udp.go for datagrams), which hands a connection that begins with a letter to an HTTP proxy
-- (socks5/http.go); the proxy joins connections by the pipe engine (spec/pipe.go). For an application
-- that connects, the server asks the client (client/client.go) for a connection to the address; the
-- client opens a gRPC stream with the key, the network and the address in its metadata, and waits for
-- the first message. The server (server/server.go) asks the list (server/acl/acl.go) whether the key may
-- go there, dials the address and copies. The list is changed through the admin API: `toh acl` (cmd/acl)
-- calls its client (server/api/admin.go), which calls the handlers (server/admin/admin.go). Traffic
-- events charge the keys (server/stats.go).
--
-- The files:
--
-- - Base and its children: lists, texts as lists of bytes, results, maps as association lists, 64-bit
--   words, and what the program uses of the Go packages strings and net.
-- - Acl/State.antt, Quota, Access, Change, Storage: server/acl/acl.go. The list of live keys, the keys
--   to store, and a heap of usage counters, since both kinds of key point to the same counters. A
--   function of the source is a function of the same name from a state to a state; Limit, whose name the
--   type has, is set_key_limit. Policy, Allowance, Bounds, Deletion, Duplicates, Loading, Restart,
--   Durability, Forgetting, Isolation and Lifecycle hold the theorems. Acl/Refinement.antt says what the
--   operations and the checks mean for a client of the list, which sees users with limits and usages;
--   Steps and Decisions hold the theorems.
-- - Api.antt and Api/Client.antt: server/api/api.go and server/api/admin.go, over a transport.
-- - Admin.antt: server/admin/admin.go; Admin/Effects.antt joins it with the client.
-- - Server/Stats.antt: server/stats.go. Server/Stream.antt: StreamMessages of server/server.go.
--   Server/Start.antt: NewTohServer and Run of server/server.go; Server/Start/First.antt joins them with
--   the client.
-- - Cmd/Cobra.antt: commands, flags and their readers, the interface to the package cobra.
--   Cmd/Main.antt: main.go. Cmd/Serve.antt: cmd/serve/cmd.go.
-- - Client.antt: client/client.go; Client/Reach.antt joins it with Server/Stream.antt, and
--   Client/Traffic.antt with Server/Stats.antt too.
-- - Cmd/Acl.antt: the commands of cmd/acl; Cmd/Acl/Lists.antt and Cmd/Acl/InForce.antt hold the
--   theorems.
-- - Cmd/Acl/Init.antt: initAction of cmd/acl/cmd.go. Cmd/Acl/Run.antt: the commands of cmd/acl/cmd.go
--   from their flags on.
-- - Cmd/S5.antt: the configuration and the start of cmd/s5/server; Cmd/S5/Flags.antt: processOptions of
--   cmd/s5/cmd.go, with the theorem in FirstStart. Cmd/S5/Startup.antt joins them with the handshake,
--   the client and the server, Cmd/S5/Datagrams.antt with the relay of datagrams; Cmd/S5/Health.antt has
--   the health check.
-- - Spec/Types.antt, Spec/Tools.antt and Spec/Conn.antt: spec/types.go, spec/tools.go and spec/spec.go.
-- - Spec/Pipe.antt: spec/pipe.go as two step relations, one for the channel of events and one for a call
--   of Pipe; Delivery and Copies hold the theorems.
-- - Socks5/Options.antt, Socks5/Handshake.antt and Socks5/Run.antt: socks5/socks5.go. The connection of
--   the handshake is a list of segments still to arrive and a list of writes. Requests, Commands and
--   Replies, and Drain, hold the theorems.
-- - Socks5/Http.antt: socks5/http.go, on the same connections; Replay, Fetching, Termination and Routing
--   hold the theorems. Socks5/Udp.antt: socks5/udp.go; Format and Relay hold the theorems.
-- - Dns/Cache.antt and Dns/Lookup.antt: dns/dns.go; Dns/Resolver.antt: dns/query.go. Answers, Lasting,
--   Eviction, Twice and Order hold the theorems.
-- - Examples: runs on small inputs.
--
-- Loops run over lists. The loop of DelKey runs over the indices of the array as it is long at first.
-- Fuel stands in two helpers of Base: trimming gets the length of the text, since a round removes a
-- byte, and a number is printed with 20 decimal digits at most, which a 64-bit number does not exceed,
-- or 4 hexadecimal ones for a group of an IPv6 address. The loops that read a connection, of the HTTP
-- proxy and of Run, have fuel as an argument: every read takes a byte, so that the number of bytes to
-- come bounds it, and running out of it is a result of its own. A 64-bit counter wraps, written out in
-- Base/Words.antt; indices and lengths are natural numbers.
--
-- Parameters stand for what is not in the repository: the JSON codec, humanize.ParseBytes and
-- base58.CheckEncode, the random source, the dialler, the gRPC connection and stream, the parsing and
-- printing of HTTP messages, the resolution of an address to listen on, the text of a DNS question, the
-- full form of a host name, the exchange with a DNS server, the texts of durations, the paths of files,
-- the values of flags, the levels of logging, and the listener of the server. How many bytes the library
-- asks a connection for while it parses is its own too. System calls that may fail do so by a value that
-- says which. Goroutines that share a channel are step relations; that two of them read one connection
-- after the handshake has handed it to the HTTP proxy is not modelled.
--
-- Not modelled: the generated gRPC code, how cobra takes flags out of arguments and checks them against
-- the policies that are declared, the pool of buffers and the channel of events of the server, which
-- nothing uses, logging, the mutex of the list (calls follow one another), timers, and spec/version.go,
-- which only declares two variables.
pub mod Base
pub mod Api
pub mod Acl
pub mod Spec
pub mod Admin
pub mod Server
pub mod Socks5
pub mod Client
pub mod Dns
pub mod Cmd
pub mod Examples
