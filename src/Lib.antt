-- ===== src/Lib.antt =====
-- The labs of CS 350: ALL_CODE_350/starter-1 of the repository, in Go.
--
-- Parts. raft/ is the Raft protocol, on which raft-lock/ builds a replicated lock service; mr/ is a
-- MapReduce coordinator with its workers, run by mr-main/; bank/ and ws/ are exercises on mutexes
-- and channels; labrpc/ simulates a network and labgob/ wraps encoding/gob for them. The peers call
-- each other by RPC (RequestVote, AppendEntries), save their state in a Persister and hand
-- committed entries to the service over a channel.
--
-- Base holds the shared names: Boolean tests and lists over the native numbers, the outcomes of a
-- Go call (returns, panics, blocks), and Go's `int` as an integer that sums wrap to 64 bits.
--
-- Raft is raft/raft.go and raft/persister.go:
--   Raft/State        the structures, and the small methods that the handlers share
--   Raft/Persist      persister.go, persist and readPersist
--   Raft/Vote         RequestVote; Vote/Grant says who gets a vote
--   Raft/Append       AppendEntries and its helpers; Append/Conflict, Stages and Cases prove its branches
--   Raft/Leader       Start, the replies to AppendEntries and the commit index; Leader/Commit
--   Raft/Election     election; Election/Exits is on the early exits of its loop, Election/Lost on a
--                     vote that a newer term leaves uncast
--   Raft/Apply        applyCommits and Make; Apply/Delivery says what reaches the service
--   Raft/Replication  heartbeat, run against one follower; Replication/Converge shows that it ends
--   Raft/Terms        what each method does to term, vote and role
--   Raft/Cluster      n peers as a step relation; Cluster/Safety has election safety
--   Raft/Restart      what is saved, and what a crash leaves
--   Raft/Timers       requestHeartbeats, and the loop of CommitLog
-- A method `fooBar` is the function `foo_bar`; it takes the peer `rf` and returns it changed. One
-- call under the peer's mutex is one step. `election` has three critical sections, which are
-- begin_election, see_reply and end_election; election puts them together for the case that nothing
-- comes in between, and Cluster takes them as separate steps.
--
-- Bank is bank/bank.go: every call with the locks that it takes, run one after another;
-- Bank/Transfers and Bank/Locks say what they do. Bank/Threads has goroutines that make such calls
-- at the same time, a statement or an operation on a mutex for each step: Mutexes, Effects, Owners
-- and Handover are about the mutexes, Moves, Turns, Progress and Ends about deadlock and the end of
-- a run; Bank/Ledger has what a call does to the balances alone, Bank/Books that the sequential
-- code does it, and Changes, Bookings, Refusals, Statements, Orders, Serial and Agreement compare
-- an interleaving with calls made one after another. Lock is raft-lock/lockStore.go; Lock/Queues
-- has the specification, a queue of clients for each key, and Lock/Requests that the store refines
-- it. Lock/Server is raft-lock/server.go, the loop that applies committed operations, with
-- Lock/Server/Duplicates; its child Mutex is the RPC handler, between steps of the loop and of
-- other handlers, and Delivery, Happenings and Waiting say what an answer OK means. Lock/Clerk is
-- raft-lock/clerk.go, with Clerk/Retry. What Start of Raft returns and what the calls of a clerk
-- come to are arguments there.
--
-- MapReduce/Coordinator is mr/coordinator.go with the messages of mr/rpc.go: RequestTask,
-- ReportTaskDone, Done and MakeCoordinator; Coordinator/Handing says what is handed out, with
-- Handing/Loop, Coordinator/Reports what a report of a map task does. MapReduce/Worker is
-- mr/worker.go, on a store of files; Worker/Files and Worker/Groups say what a map task writes and
-- what a reduce task prints. MapReduce/Sequential is mr-main/mrsequential.go, with Sequential/Runs.
-- MapReduce/Keys has the values of a key, the specification of both; MapReduce/Job puts the turns
-- of a job together and compares the two programs (Job/Output), and the worker's reports with the
-- coordinator (Job/Reporting). Job/Work is a whole job of one worker with the coordinator, round by
-- round: Progress and Filing are about the tables of tasks, Rounds, MapRounds and ReduceRounds
-- about a round of each phase, Starts about the coordinator that MakeCoordinator sets up.
-- MapReduce/Apps is mr-main/mrapps: Wc, Credit (with Credit/Rows), Indexer, EarlyExit and Crash,
-- and Processes for the plugins that look at processes and at the files of the directory (jobcount,
-- mtiming, rtiming), with Processes/Counted.
--
-- Weather is ws/: Weather/Mutex is mutex_aggregator.go, as sections under the mutex that run one
-- after another in any order that the code allows; Weather/Channel is the collecting loop of
-- channel_aggregator.go. Weather/Reports and Weather/Agreement say what they report. Floating point
-- is a parameter, and Reports has the one law of it that is used.
--
-- Conventions. log.Fatal ends the process and counts as a panic. The random election timeout is a
-- count of the calls of resetElectionTimer. The channel Commit, of capacity 100, is the number of
-- signals in it, and a send to a full channel blocks. In Cluster, a handler that would wait for
-- room takes its step after CommitLog has received a signal. Slices are lists: that append may
-- share memory with an older slice is not seen. labgob is a parameter, an encoding with decode and
-- encode; where a theorem relies on it, the hypothesis Lossless says that decoding gives back what
-- was encoded. Commands are of any type. heartbeat runs on a number of rounds, of which `next` are
-- enough; prepareMessages and updateCommitIndex run for the rounds that their bounds leave.
--
-- The hash, the names of files, JSON, sorting and the string functions of the standard library are
-- parameters of MapReduce; the records Reads, Ordering and Sorts have what the theorems rely on. A
-- turn of a worker is one step, and the clock of the coordinator is an argument of each round; a
-- job of m map and n reduce tasks takes m + n + 1 rounds. The clerk's loop runs on fuel: as many
-- tries as there are servers, after a server has begun to accept, are enough.
--
-- Not modelled: goroutines, timers and their periods (ticker), Kill, the transport of messages
-- (labrpc), the encoding itself (labgob), the test harnesses (config.go), interleaved calls of
-- Withdraw, GetBalance and CreateAccount, the sockets of MapReduce, the ticker and quit of the
-- aggregators. labrpc and labgob are the MIT 6.824 labs' own libraries.
pub mod Base
pub mod Raft
pub mod Bank
pub mod Lock
pub mod MapReduce
pub mod Weather
