-- ===== src/Raft/Tests/Recovery.antt =====
-- Witnesses on crashes.
use cs_350_boston_u.Base.{ℕ, ◌≡◌, refl, true, returns, Ensures, [], arith}
use cs_350_boston_u.Base.Int.{pos, ◌+ℤ◌}
use cs_350_boston_u.Base.Word.{add_int}
use cs_350_boston_u.Raft.State.{Raft, Role, RequestVoteArgs, AppendEntriesArgs, AppendEntriesReply}
use cs_350_boston_u.Raft.Persist.{persist}
use cs_350_boston_u.Raft.Vote.{request_vote}
use cs_350_boston_u.Raft.Append.{append_entries}
use cs_350_boston_u.Raft.Election.{begin_election}
use cs_350_boston_u.Raft.Terms.{Keeps}
use cs_350_boston_u.Raft.Terms.Append.{append_entries-Keeps}
use cs_350_boston_u.Raft.Restart.{
  Persisted, persist-Persisted, request_vote-Persisted, restart, restart_recovers,
  begin_election_forgets_vote,
}
use cs_350_boston_u.Raft.Tests.{test_codec, test_codec-Lossless, peer_at, short_log}

abbrev saved_peer : Raft ℕ
saved_peer = persist (peer_at 0 1 short_log)

-- A candidate of term 2.
abbrev rival : RequestVoteArgs
rival = record { term = pos 2; candidate_id = pos 2; last_log_index = pos 1; last_log_term = pos 1 }

request_vote-Persisted_example : Persisted (request_vote saved_peer rival).0
request_vote-Persisted_example =
    request_vote-Persisted saved_peer rival (persist-Persisted (peer_at 0 1 short_log))

restart_recovers_example :
    (r' : Raft ℕ) × (restart 0 saved_peer ≡ returns r')
    × (r'.current_term ≡ saved_peer.current_term)
    × (r'.voted_for ≡ saved_peer.voted_for)
    × (r'.log ≡ saved_peer.log)
    × (r'.role ≡ Role.follower)
    × (r'.commit_index ≡ pos 0)
    × (r'.last_applied ≡ pos 0)
    × Persisted r'
restart_recovers_example =
    restart_recovers test_codec-Lossless 0 saved_peer (persist-Persisted (peer_at 0 1 short_log))

begin_election_forgets_vote_example :
    ((begin_election saved_peer).0.voted_for ≡ pos 0)
    × ((r' : Raft ℕ) × (restart 0 (begin_election saved_peer).0 ≡ returns r')
        × ((request_vote r' rival).1.vote_granted ≡ true))
unfolding persist begin_election add_int ◌+ℤ◌
begin_election_forgets_vote_example =
    begin_election_forgets_vote test_codec-Lossless 0 saved_peer rival
      (persist-Persisted (peer_at 0 1 short_log)) refl (omega arith) refl refl

abbrev empty_request : AppendEntriesArgs ℕ
empty_request = record {
  term = pos 2;
  leader_id = pos 1;
  prev_log_index = pos 1;
  prev_log_term = pos 1;
  entries = [];
  leader_commit = pos 0;
}

append_entries-Keeps_example :
    Ensures
      (λ (o : Raft ℕ × AppendEntriesReply). Keeps saved_peer o.0)
      (append_entries saved_peer empty_request)
append_entries-Keeps_example = append_entries-Keeps saved_peer empty_request
