-- ===== src/Raft/State.antt =====
-- raft.go, the structures: log entries, the peer's state, the arguments and replies of both RPCs;
-- and the small methods on the state that the handlers share.
use cs_350_boston_u.Base.{
  ℕ, ◌+◌, ◌-◌, Bool, true, false, Option, none, some, List, ltb, length, get_elem?, if◌then◌else◌,
  Outcome, returns, panics, blocks, or_panic,
}
use cs_350_boston_u.Base.Int.{ℤ, pos, negsuc}

pub data Role : Type 0 where
  follower candidate leader : Role

abbrev pub is_leader : Role → Bool
is_leader leader = true
is_leader _ = false

abbrev pub is_candidate : Role → Bool
is_candidate candidate = true
is_candidate _ = false

-- `LogEntry`; the command is any value.
pub record LogEntry (C : Type 0) : Type 0 where
  pub command : C
  pub term : ℤ

-- The value -1, which stands for no candidate, no index and no term.
abbrev pub minus_one : ℤ
minus_one = negsuc 0

-- What `persist` writes.
pub record Saved (C : Type 0) : Type 0 where
  pub term : ℤ
  pub voted_for : ℤ
  pub log : List (LogEntry C)

-- labgob over encoding/gob, as `persist` and `readPersist` use it.
pub record Codec (C : Type 0) : Type 0 where
  pub encode : Saved C → List ℕ
  pub decode : List ℕ → Option (Saved C)

-- persister.go
pub record Persister : Type 0 where
  pub raftstate : List ℕ
  pub snapshot : List ℕ

-- `Raft`. `num_peers` is `len(peers)`; `commits` counts the signals in the channel `Commit`;
-- `election_resets` counts the calls of `resetElectionTimer`, whose duration is random.
pub record Raft (C : Type 0) : Type 0 where
  pub num_peers : ℕ
  pub me : ℕ
  pub current_term : ℤ
  pub voted_for : ℤ
  pub role : Role
  pub log : List (LogEntry C)
  pub commit_index : ℤ
  pub next_index : List ℤ
  pub match_index : List ℤ
  pub last_applied : ℤ
  pub log_prev_index : ℤ
  pub log_prev_term : ℤ
  pub commits : ℕ
  pub election_resets : ℕ
  pub persister : Persister

pub record RequestVoteArgs : Type 0 where
  pub term : ℤ
  pub candidate_id : ℤ
  pub last_log_index : ℤ
  pub last_log_term : ℤ

pub record RequestVoteReply : Type 0 where
  pub term : ℤ
  pub vote_granted : Bool

pub record AppendEntriesArgs (C : Type 0) : Type 0 where
  pub term : ℤ
  pub leader_id : ℤ
  pub prev_log_index : ℤ
  pub prev_log_term : ℤ
  pub entries : List (LogEntry C)
  pub leader_commit : ℤ

pub record AppendEntriesReply : Type 0 where
  pub term : ℤ
  pub success : Bool
  pub new_term : ℤ
  pub new_index : ℤ

-- `make(chan struct{}, 100)`
abbrev pub commit_capacity : ℕ
commit_capacity = 100

module _ {C : Type 0} where
  -- `rf.log[i]`
  abbrev pub log_at : List (LogEntry C) → ℤ → Outcome (LogEntry C)
  log_at log (pos i) = or_panic (get_elem? log i)
  log_at log (negsuc i) = panics

  -- The last entry, at `len(log) - 1`.
  abbrev pub last_entry : List (LogEntry C) → Option (LogEntry C)
  last_entry log = get_elem? log (length log - 1)

  abbrev pub last_index : List (LogEntry C) → ℤ
  last_index log = elim (last_entry log) [ none ↦ minus_one | some e ↦ pos (length log - 1) ]

  abbrev pub last_term : List (LogEntry C) → ℤ
  last_term log = elim (last_entry log) [ none ↦ minus_one | some e ↦ e.term ]

  unfoldable pub update_last_log_info : Raft C → Raft C
  update_last_log_info rf = record rf {
    log_prev_index = last_index rf.log;
    log_prev_term = last_term rf.log;
  }

  unfoldable pub reset_election_timer : Raft C → Raft C
  reset_election_timer rf = record rf { election_resets = rf.election_resets + 1 }

  unfoldable pub become_follower : ℤ → Raft C → Raft C
  become_follower term rf = record rf {
    role = Role.follower;
    voted_for = minus_one;
    current_term = term;
  }

  -- `rf.Commit <- struct{}{}`, which waits while the channel is full.
  unfoldable pub signal_commit : Raft C → Outcome (Raft C)
  signal_commit rf =
      if ltb rf.commits commit_capacity
      then returns (record rf { commits = rf.commits + 1 })
      else blocks
