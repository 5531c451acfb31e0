-- ===== src/Raft/Tests/Log.antt =====
-- Witnesses on the log.
use cs_350_boston_u.Base.{
  ℕ, zero, suc, ◌/◌, ◌<◌, ◌≡◌, refl, ◌↔◌, ◌≢◌, [], ◌∷◌, take, drop, true, some, returns, panics,
  arith, inl,
}
use cs_350_boston_u.Base.Int.{pos}
use cs_350_boston_u.Raft.State.{Raft, AppendEntriesArgs, AppendEntriesReply, LogEntry}
use cs_350_boston_u.Raft.Append.{append_entries, find_conflict_index}
use cs_350_boston_u.Raft.Append.Conflict.{Stops, find_conflict_index-Stops}
use cs_350_boston_u.Raft.Append.Cases.{
  Accepted, Refused, append_entries_match, append_entries_conflict,
}
use cs_350_boston_u.Raft.Leader.{is_majority_replicated, update_commit_index}
use cs_350_boston_u.Raft.Leader.Commit.{
  replicas, Moves, moved, is_majority_replicated_iff, update_commit_index-Moves,
}
use cs_350_boston_u.Raft.Apply.{apply_commits}
use cs_350_boston_u.Raft.Apply.Delivery.{numbered, apply_commits_delivers, apply_commits_panics}
use cs_350_boston_u.Raft.Replication.{heartbeat}
use cs_350_boston_u.Raft.Replication.Rounds.{Ready, LogMatching, SameStart}
use cs_350_boston_u.Raft.Replication.Converge.{heartbeat_replicates}
use cs_350_boston_u.Raft.Tests.{test_codec, entry, peer_at, short_log, long_log, test_leader}

-- A request of term 3 for the entries after `at`, of term `prev_term`.
abbrev request_at : ℕ → ℕ → AppendEntriesArgs ℕ
request_at at prev_term = record {
  term = pos 3;
  leader_id = pos 0;
  prev_log_index = pos at;
  prev_log_term = pos prev_term;
  entries = entry 8 3 ∷ [];
  leader_commit = pos 1;
}

append_entries_match_example :
    (rf' : Raft ℕ) × (reply : AppendEntriesReply) × (append_entries
        (peer_at 1 2 short_log)
        (request_at 1 1)
      ≡ returns (rf', reply))
    × (reply.success ≡ true)
    × (reply.term ≡ pos 2)
    × Accepted (peer_at 1 2 short_log) (request_at 1 1) 1 rf'
append_entries_match_example =
    append_entries_match (peer_at 1 2 short_log) (request_at 1 1) 1 (entry 5 1) refl (omega arith)
      refl refl refl (omega arith)

append_entries_conflict_example :
    (rf' : Raft ℕ) × (reply : AppendEntriesReply) × (append_entries
        (peer_at 1 2 short_log)
        (request_at 1 2)
      ≡ returns (rf', reply))
    × Refused (peer_at 1 2 short_log) (request_at 1 2) 1 rf' reply
append_entries_conflict_example =
    append_entries_conflict (peer_at 1 2 short_log) (request_at 1 2) 1 refl (omega arith) refl
      (omega arith) (omega arith) (λ e at same. other_term e at same)
  where
    other_term : (e : LogEntry ℕ) → some (entry 5 1) ≡ some e → e.term ≢ pos 2
    other_term e at same = cc

find_conflict_index-Stops_example :
    (k : ℕ) × (find_conflict_index (peer_at 1 2 long_log) (pos 3) ≡ returns (pos k))
    × Stops long_log (pos 0) (pos 2) 3 k
find_conflict_index-Stops_example =
    find_conflict_index-Stops (peer_at 1 2 long_log) 3 (entry 7 2) (omega arith) refl

is_majority_replicated_iff_example :
    (is_majority_replicated test_leader (pos 2) ≡ true)
    ↔ (3 / 2 < replicas (pos 2) test_leader.match_index)
is_majority_replicated_iff_example = is_majority_replicated_iff test_leader (pos 2)

update_commit_index-Moves_example :
    (d : ℕ) × Moves test_leader 0 d 4
    × (update_commit_index test_leader ≡ returns (moved test_leader 0 d))
update_commit_index-Moves_example =
    update_commit_index-Moves test_leader 0 refl (omega arith) (omega arith) (omega arith)

abbrev committed_peer : ℕ → Raft ℕ
committed_peer c = record (peer_at 1 2 long_log) { commit_index = pos c; last_applied = pos 1 }

apply_commits_delivers_example :
    apply_commits (committed_peer 3)
    ≡ returns
        (record (committed_peer 3) { last_applied = pos 3 }, numbered 2 (take 2 (drop 2 long_log)))
apply_commits_delivers_example =
    apply_commits_delivers (committed_peer 3) 1 3 refl refl (omega arith) (omega arith)
      (omega arith)

apply_commits_panics_example : apply_commits (committed_peer 4) ≡ panics
apply_commits_panics_example =
    apply_commits_panics (committed_peer 4) 1 4 refl refl (omega arith) (omega arith) (omega arith)

abbrev behind : Raft ℕ
behind = peer_at 1 2 short_log

matching : LogMatching long_log short_log
matching zero a b at_l at_f same = refl
matching (suc zero) a b at_l at_f same = refl
matching (suc (suc i)) a b at_l at_f same = cc

same_start : SameStart long_log short_log
same_start a b at_l at_f = ground arith

behind-Ready : Ready test_leader behind 1 (pos 3)
behind-Ready = record {
  leads = refl;
  in_term = refl;
  nonneg_term = omega arith;
  not_newer = omega arith;
  nonneg_commit = omega arith;
  has_entry = omega arith;
  fits = omega arith;
  f_fits = omega arith;
  l_room = omega arith;
  f_room = omega arith;
  in_next = omega arith;
  in_match = omega arith;
  matching = matching;
  same_start = same_start;
  up_to_date = inl (omega arith);
}

heartbeat_replicates_example :
    (l' : Raft ℕ) × (f' : Raft ℕ) × (heartbeat 3 test_leader behind 1 (pos 3) (pos 3)
      ≡ returns (some (l', f')))
    × (f'.log ≡ long_log)
    × (l'.log ≡ long_log)
heartbeat_replicates_example =
    heartbeat_replicates 3 test_leader behind 1 (pos 3) 2 behind-Ready (omega arith) (omega arith)
