-- ===== src/Lib.antt =====
-- The notary of mxkeys.org: the core of its replication, its transparency log and its guards.
--
-- Raft.antt and the modules below it model internal/zero/raft, the consensus that replicates key
-- updates. `Raft.Node` is the struct Node; the log is Raft/LogView.antt (log_view.go), the votes
-- Raft/Vote.antt and the appends Raft/Append.antt (rpc_handlers.go), the elections
-- Raft/Election.antt (election.go), the leader's side Raft/Replication.antt (replication.go),
-- the log file Raft/Persistence.antt (wal_append.go, wal_truncate.go), snapshots
-- Raft/Snapshots.antt (snapshot_rpc.go, pending_snapshot.go), compaction Raft/Compaction.antt
-- (compact.go), start-up Raft/Recovery.antt (persistence.go) and client commands
-- Raft/Submission.antt (lifecycle.go, propose.go). Raft/Steps.antt puts the critical sections
-- together as the transitions of a node. A handler is one function of the node, since the code
-- holds `n.mu` for the whole of it; where the code lets go of the lock, the model has a function
-- for each part. Clock readings, replies and the outcomes of file writes are arguments.
--
-- Merkle.antt and the modules below it model internal/zero/merkle, the tree of the transparency
-- log: tree.go, proof.go in Merkle/Inclusion.antt and consistency.go in Merkle/Consistency.antt.
-- SHA-256 and the hexadecimal codec are a parameter, `Merkle.Crypto`.
--
-- KeyCache.antt and the modules below it model the cache of keys that the nodes share, in
-- internal/cluster: state.go, the merge and the handlers of messages.go that change the cache, and
-- the callback of runtime.go that applies committed log entries to it.
--
-- Breaker.antt and the modules below it model internal/keys/circuitbreaker.go, which fetches ask
-- before they contact a server. Breaker/Calls.antt has its methods as calls in an order.
--
-- Raft/LogFile.antt has the bytes of the log file (wal.go, wal_append.go, wal_read.go,
-- wal_truncate.go): its records, the reader and the rewrites, with JSON, whose encoder may fail, CRC-32C and the HMAC as
-- a parameter, `LogFile.LogCodec`. Raft/Persistence.antt has the same operations on the list of entries.
--
-- Raft/SnapshotFile.antt has the bytes of the snapshot file and of the spill file that a follower collects
-- the chunks in (snapshot.go, snapshot_load.go, pending_snapshot.go), with CRC-32C as a parameter.
-- Raft/Transfer.antt has the leader's side of a transfer (snapshot_send.go); its peer is an argument, and
-- Raft/Transfer/Opening.antt puts the follower of Raft/Snapshots.antt in its place.
--
-- RateLimit.antt and the modules below it model internal/server/ratelimit.go, the visitors that the
-- server remembers, and the query limit of server_http.go, with the token buckets of golang.org/x/time/rate
-- as a parameter; a middleware takes one reading of the clock for the visitor and for the token.
-- RateLimit/Lru.antt is the cache that it implements, on the visitors alone.
--
-- Policy.antt and the modules below it model the trust policy of internal/keys (trustpolicy.go,
-- trustpolicy_checks.go, trustpolicy_runtime.go), and Addresses.antt the address ranges and the
-- server names it looks at (isPrivateIP, and parseServerName of resolver.go). Strings are lists of
-- bytes there, with the functions of package strings in Prelude/Texts.antt.
--
-- Canonical.antt and the modules below it model internal/zero/canonical, the encoding that every signature is
-- made over; a value is what its dynamic type and reflection make of it, a string is the runes and the
-- invalid bytes that `range` finds in it, and the keys of maps are taken as valid UTF-8. A uint64 has at
-- most the 20 digits that its decimal text is given room for.
--
-- Auth.antt and the modules below it model the authentication of messages between nodes
-- (internal/zero/raft/auth.go, and internal/cluster/auth.go, which is alike), with the code over the
-- canonical JSON as a parameter. ClientIp.antt models internal/server/client_ip.go.
--
-- Fetching.antt and the modules below it model how internal/keys fetches the keys of a server
-- (fetcher_orchestration.go, fetcher_direct.go, fetcher_notary.go, fetcher_signature.go), around the
-- circuit breaker of Breaker.antt; what the network answers is an argument, and base64, Ed25519
-- and the canonical JSON are a parameter, `Fetching.Crypto`. Notary.antt models how the notary serves keys
-- from its memory, its database or a fetch (notary_query.go, notary_cleanup.go), and Notary/Queries.antt
-- how it answers a query for several servers (QueryKeys).
--
-- Numbers of type uint64 are natural numbers with the wrap-around written out (`u64`); the
-- theorems that need it assume that indices stay below 2^63. The loops on fuel are the levels of
-- the Merkle tree (the number of leaves, which suffices because a level halves), the bits that
-- the consistency proof strips (the number itself, which halves) and the commit scan (the number
-- of entries left, which is the loop's own bound), and the rounds of the log file's reader (the
-- number of bytes, which suffices because a record takes 40 or more). A snapshot is sent in
-- as many rounds as it has bytes and one more, which suffices because each sends a byte or more. The
-- retries of a fetch are the loop's own count.
--
-- Times, and counters of type int, are natural numbers without a bound; a counter goes up by one
-- with each call. A Go map is an association list that holds a key at most once (Prelude/Dicts.antt),
-- and its order stands for the order in which `range` visits the map.
--
-- Not modelled: the network, TLS, DNS, the decoding of JSON and the tags of structs, the converter of old log files, goroutines and tickers,
-- metrics, cluster membership, the handlers of the HTTP server and their validation, storage in SQL and configuration.
pub mod Canonical
pub mod RateLimit
pub mod Addresses
pub mod ClientIp
pub mod Fetching
pub mod Notary
pub mod Auth
pub mod Policy
pub mod Breaker
pub mod KeyCache
pub mod Prelude
pub mod Raft
pub mod Merkle
pub mod Examples
