-- ===== src/Lib.antt =====
-- navi-kv: a Raft implementation in Go, and a key-value store on top of it.
--
-- The program. A `Server` (navi/server.go) holds the state of one Raft node under one mutex. Its loop
-- and the handlers of incoming messages call the operations of navi/election.go (timers, votes,
-- leadership) and navi/replication.go (submitted commands, append requests, commitment, application).
-- Those call `persist` of navi/persistence.go, which writes term, vote and log to a storage of
-- navi/storage.go, and the membership code of navi/membership.go, which keeps the cluster in step with
-- the config changes of the log. cmd/kv-api/main.go is the state machine that the applied commands run
-- on, with its encoding of commands, the HTTP handlers in front of it, and the reading of the command
-- line. cmd/navi-cli is a console that writes a compose file of kv-api nodes and shows their logs in
-- tabs. The tests join servers by the network of
-- navi/transport_memory.go.
--
-- The files.
--   Prelude, Bytes, Text: shared helpers; lists over native numbers, outcomes that can panic, bytes with
--     the little-endian numbers of encoding/binary, and what is used of strconv, strings and fmt.
--   Raft/State: the records of navi/server.go, `getVotedFor` and `setVotedFor`.
--   Raft/Storage: `MemStorage` of navi/storage.go.
--   Raft/Config: `encodeConfigChange`, `decodeConfigChange` (navi/membership.go).
--   Raft/Cluster: `mergeClusterConfig`, `resolveClusterIndex`, `rebuildClusterFromLog`.
--   Raft/Membership: `AddServer`.
--   Raft/Persistence: `persist`, `restore`, `ensureLog` (navi/persistence.go).
--   Raft/Election: navi/election.go.
--   Raft/Replication: `Apply`, `appendEntries`, `HandleAppendEntriesRequest` (navi/replication.go).
--   Raft/Advance: `advanceCommitIndex` and `heartbeat` (navi/replication.go).
--   Raft/Invariant: `IsValid`, the invariant of a running server.
--   Raft/Lifecycle: `NewServer`, `Start`, `Stop` and the loop (navi/server.go).
--   Raft/Network: navi/transport_memory.go.
--   Raft/Rpc: the cache of clients of navi/transport.go.
--   Kv: `encodeCommand`, `decodeCommand` and `statemachine.Apply` of cmd/kv-api/main.go.
--   Kv/Startup, Kv/Http: `getConfig`, the making of the server in `main`, and the handlers of set, get
--     and add-server (cmd/kv-api/main.go).
--   Console/Compose: `GenerateCompose` and `AddComposeNode` of cmd/navi-cli/compose.go.
--   Console: the tabs of cmd/navi-cli/main.go, over `strings.ToLower` and `strings.Contains`.
--     `setContent` renders their lines, and drops the result, which is for the view.
--   Console/Highlight: `renderLine` and `renderTabLines` of cmd/navi-cli/main.go.
--     Console/Rendered: when `setContent` does not panic.
--   Console/Commands, Console/Logs: cmd/navi-cli/commands.go and `classifyLevel` of logs.go.
--   Console/Status, Console/Closures: cmd/navi-cli/status.go, and what the commands do outside of
--     `Update`. Console/Ports: the ports that they report.
--   Console/Messages, Console/Modals: `Update` of cmd/navi-cli/main.go, and cmd/navi-cli/modals.go.
--   Tests: runs at concrete inputs.
-- The modules below a component's file hold its proofs and are named for what they prove.
--
-- How the code is read.
--   An operation runs under the mutex, so it is one function from state to state; `Outcome` has the
--   panics of failed assertions and of indexes out of range. A goroutine of `requestVote` or
--   `appendEntries` takes the mutex twice, and is two operations: the request, and what is done with the
--   answer. What an operation draws from outside (two readings of the clock and a random number) is the
--   record `Env`. Times are milliseconds. A result channel is a number, and sending on it is a value
--   that the operation returns. The state machine of `advanceCommitIndex` is a parameter.
--   Numbers are natural numbers; an addition or subtraction of the type uint64 that could leave its
--   range is `add64` or `sub64`, modulo 2 ^ 64. `len(s.log)-1` is of a log that is never empty once
--   `restore` has run. Addresses and texts are lists of bytes. A byte slice has its length as its
--   capacity. The capacity of the log is the choice of the Go runtime: `HandleAppendEntriesRequest`
--   takes the spare room as an argument, for every round of its loop.
--   The loop of a server reads the state under the mutex and lets it go before each operation, so a run
--   is a sequence of steps in which the handlers come between the operations of a round.
--   A step of the console is a new model and a list of effects: what the code asks the runtime of
--   bubbletea to run. `logChan`, `logCtx` and `logCancel` are set and cleared together, and are one
--   numbered session.
--   Loops are recursions on a list or on a count that the code has. Two run on fuel: the printing
--   of a number in decimal, with one round more than the number, since each round divides by ten; and
--   `renderLine`, with a round for each byte of the line, since each round takes a match off it.
--   `getConfig` goes on, ends the process by `log.Fatal`, or panics: the three cases of `Start`. What a
--   handler gets from `Apply` of the server is an argument, since its wait is not modelled.
--
-- Not modelled: the file storage, the connections of the RPC transport, the clock, debug output, the
-- wait of `Apply` and `AddServer` for the results, the serving of HTTP, the views of the console but
-- for the marked lines, its stream of container logs, and docker.
pub mod Prelude
pub mod Bytes
pub mod Text
pub mod Raft
pub mod Kv
pub mod Console
pub mod Tests
