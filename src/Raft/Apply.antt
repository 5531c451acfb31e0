-- ===== src/Raft/Apply.antt =====
-- raft.go, `applyCommits` and its helpers, and `Make`.
pub mod Delivery
use cs_350_boston_u.Base.{
  ℕ, zero, suc, ◌+◌, Bool, true, false, List, [], ◌∷◌, ◌++◌, ltb, if◌then◌else◌, Outcome, returns,
  panics, ◌>>=◌,
}
use cs_350_boston_u.Base.Int.{ℤ, pos, pos_part, ◌-ℤ◌, ltb_ℤ}
use cs_350_boston_u.Base.Word.{add_int}
use cs_350_boston_u.Raft.State.{Raft, Role, LogEntry, Codec, Persister, minus_one, log_at}
use cs_350_boston_u.Raft.Persist.{read_persist, read_raft_state}

-- `ApplyMsg`
pub record ApplyMsg (C : Type 0) : Type 0 where
  pub command_valid : Bool
  pub command : C
  pub command_index : ℤ

module _ {C : Type 0} where
  abbrev message : LogEntry C → ℤ → ApplyMsg C
  message e i = record { command_valid = true; command = e.command; command_index = i }

  -- The loop of `prepareMessages` from index `i`, with the rounds left.
  unfoldable pub prepare_from : ℕ → ℤ → List (LogEntry C) → Outcome (List (ApplyMsg C))
  prepare_from zero i log = returns []
  prepare_from (suc rounds) i log = do
    e ← log_at log i
    rest ← prepare_from rounds (add_int i (pos 1)) log
    returns (message e i ∷ rest)

  unfoldable pub prepare_messages : Raft C → Outcome (List (ApplyMsg C))
  unfolding prepare_from
  prepare_messages rf =
      prepare_from (pos_part (rf.commit_index -ℤ rf.last_applied)) (add_int rf.last_applied (pos 1))
        rf.log

  -- The peer when all messages have been taken from `applyCh`.
  unfoldable pub apply_messages : Raft C → List (ApplyMsg C) → Raft C
  apply_messages rf [] = rf
  apply_messages rf (msg ∷ msgs) =
      apply_messages (record rf { last_applied = msg.command_index }) msgs

  -- The peer, and what has gone to `applyCh`.
  unfoldable pub apply_commits : Raft C → Outcome (Raft C × List (ApplyMsg C))
  unfolding prepare_messages apply_messages
  apply_commits rf =
      if ltb_ℤ rf.last_applied rf.commit_index
      then (do msgs ← prepare_messages rf; returns (apply_messages rf msgs, msgs))
      else returns (rf, [])

  -- The peer as `Make` has it before `readPersist`; `zero_command` is the `nil` of the entry that
  -- `make([]LogEntry, 1)` holds.
  unfoldable pub new_raft : C → ℕ → ℕ → Persister → Raft C
  new_raft zero_command num_peers me persister = record {
    num_peers = num_peers;
    me = me;
    current_term = pos 0;
    voted_for = minus_one;
    role = Role.follower;
    log = record { command = zero_command; term = pos 0 } ∷ [];
    commit_index = pos 0;
    next_index = [];
    match_index = [];
    last_applied = pos 0;
    log_prev_index = pos 0;
    log_prev_term = pos 0;
    commits = 0;
    election_resets = 0;
    persister = persister;
  }

module _ {C : Type 0} ⦃codec : Codec C⦄ where
  -- `Make`
  unfoldable pub make : C → ℕ → ℕ → Persister → Outcome (Raft C)
  unfolding new_raft read_persist read_raft_state
  make zero_command num_peers me persister =
      read_persist (read_raft_state persister) (new_raft zero_command num_peers me persister)
