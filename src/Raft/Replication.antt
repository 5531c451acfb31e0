-- ===== src/Raft/Replication.antt =====
-- raft.go, `heartbeat`: the leader sends its log from `next` on and goes back until the follower has
-- the entry before it. Both ends are run together, with no message lost and nothing in between.
pub mod Leader
pub mod Rounds
pub mod Converge
use cs_350_boston_u.Base.{
  ℕ, zero, suc, Bool, true, false, Option, none, some, ◌&&◌, if◌then◌else◌, Outcome, returns, ◌>>=◌,
}
use cs_350_boston_u.Base.Int.{ℤ, eqb_ℤ}
use cs_350_boston_u.Raft.State.{Raft, Codec, is_leader}
use cs_350_boston_u.Raft.Append.{append_entries}
use cs_350_boston_u.Raft.Leader.{initiate_append_entries, handle_append_entries_response}

module _ {C : Type 0} ⦃codec : Codec C⦄ where
  -- One round of the loop, when the peer still leads in the term: the leader, the follower, the new
  -- `next`, and whether the loop goes on.
  unfoldable pub heartbeat_round :
      Raft C → Raft C → ℕ → ℤ → ℤ → Outcome (Raft C × Raft C × ℤ × Bool)
  heartbeat_round l f server next term = do
    args ← initiate_append_entries l next
    (f', reply) ← append_entries f args
    (l', next', again) ← handle_append_entries_response l reply args server next term
    returns (l', f', next', again)

  -- `none` if the rounds run out.
  unfoldable pub heartbeat : ℕ → Raft C → Raft C → ℕ → ℤ → ℤ → Outcome (Option (Raft C × Raft C))
  heartbeat zero l f server next term = returns none
  heartbeat (suc rounds) l f server next term =
      if is_leader l.role && eqb_ℤ l.current_term term
      then (do
        (l', f', next', again) ← heartbeat_round l f server next term
        elim again [
          | true ↦ heartbeat rounds l' f' server next' term
          | false ↦ returns (some (l', f'))
        ])
      else returns (some (l, f))
