-- ===== src/Raft/Terms/Leader.antt =====
-- The leader's methods and those of an election, but for the one that takes office: the term and the
-- vote only advance.
use cs_350_boston_u.Base.{
  ℕ, zero, suc, ap, inl, inr, Bool, true, false, arith, Ensures, Ensures->>=, Ensures-returns,
  Bool-cases, List, [], ◌∷◌,
}
use cs_350_boston_u.Base.Int.{ℤ, pos, ◌<ℤ◌, ◌+ℤ◌, ltb_ℤ, int_laws, pos_part, neg_part}
use cs_350_boston_u.Base.Word.{IsInt, add_int, add_int_small}
use cs_350_boston_u.Raft.State.{
  Raft, Codec, RequestVoteArgs, RequestVoteReply, AppendEntriesArgs, AppendEntriesReply,
}
use cs_350_boston_u.Raft.Persist.{persist}
use cs_350_boston_u.Raft.Leader.{
  commit_loop, rounds_left, update_commit_index, attempt_commit_logs, update_success_indexes,
  step_down, on_success, handle_append_entries_response, start,
}
use cs_350_boston_u.Raft.Election.{begin_election, see_reply}
use cs_350_boston_u.Raft.Apply.{ApplyMsg, apply_messages, prepare_messages, apply_commits}
use cs_350_boston_u.Raft.Terms.{Keeps, Keeps-refl, Keeps-trans}

term_grows : (t : ℤ) → IsInt (t +ℤ pos 1) → t <ℤ add_int t (pos 1)
term_grows t h =
    omega
      (int_laws, ap pos_part (add_int_small t (pos 1) h), ap neg_part (add_int_small t (pos 1) h))

module _ {C : Type 0} where
  commit_loop-Keeps : (n : ℕ) (i : ℤ) (r : Raft C) (go : Bool) → Keeps r (commit_loop n i r go).0
  unfolding commit_loop
  commit_loop-Keeps zero i r go = ground arith
  commit_loop-Keeps (suc n) i r go =
      ground (arith, commit_loop-Keeps n (add_int i (pos 1)) (record r { commit_index = i }) true)

  update_commit_index-Keeps : (r : Raft C) → Ensures (Keeps r) (update_commit_index r)
  unfolding update_commit_index
  update_commit_index-Keeps r =
      ground (arith, commit_loop-Keeps (rounds_left r) (add_int r.commit_index (pos 1)) r false)

  attempt_commit_logs-Keeps :
      (r : Raft C) (args : AppendEntriesArgs C) → Ensures (Keeps r) (attempt_commit_logs r args)
  unfolding attempt_commit_logs
  attempt_commit_logs-Keeps r args = ground (arith, update_commit_index-Keeps r)

  update_success_indexes-Keeps :
      (r : Raft C) (server : ℕ) (next : ℤ) (n : ℕ)
      → Ensures (Keeps r) (update_success_indexes r server next n)
  unfolding update_success_indexes
  update_success_indexes-Keeps r server next n = ground arith

  apply_messages-Keeps : (r : Raft C) (msgs : List (ApplyMsg C)) → Keeps r (apply_messages r msgs)
  unfolding apply_messages
  apply_messages-Keeps r [] = ground arith
  apply_messages-Keeps r (m ∷ ms) =
      ground (arith, apply_messages-Keeps (record r { last_applied = m.command_index }) ms)

  pub apply_commits-Keeps :
      (r : Raft C) → Ensures (λ (o : Raft C × List (ApplyMsg C)). Keeps r o.0) (apply_commits r)
  unfolding apply_commits
  apply_commits-Keeps r = elim (Bool-cases (ltb_ℤ r.last_applied r.commit_index)) [
    | inl e ↦ rw e (Ensures->>= _ (prepare_messages r) _ (λ msgs _. apply_messages-Keeps r msgs))
    | inr e ↦ rw e Keeps-refl
  ]

  pub begin_election-Keeps :
      (r : Raft C)
      → IsInt (r.current_term +ℤ pos 1)
      → Keeps r (begin_election r).0 × (r.current_term <ℤ (begin_election r).0.current_term)
  unfolding begin_election
  begin_election-Keeps r h = ground (arith, term_grows r.current_term h)

module _ {C : Type 0} ⦃codec : Codec C⦄ where
  pub see_reply-Keeps :
      (r : Raft C) (args : RequestVoteArgs) (reply : RequestVoteReply)
      → Keeps r (see_reply r args reply)
  unfolding see_reply persist
  see_reply-Keeps r args reply = ground arith

  pub start-Keeps :
      (r : Raft C) (c : C) → Ensures (λ (o : Raft C × ℤ × ℤ × Bool). Keeps r o.0) (start r c)
  unfolding start persist
  start-Keeps r c = ground arith

  step_down-Keeps : (r : Raft C) (term : ℤ) → Keeps r (step_down r term)
  unfolding step_down persist
  step_down-Keeps r term = ground arith

  success-Keeps :
      (r : Raft C) (args : AppendEntriesArgs C) (server : ℕ) (next : ℤ)
      → Ensures (λ (o : Raft C × ℤ × Bool). Keeps r o.0) (on_success r args server next)
  unfolding on_success
  success-Keeps r args server next =
      Ensures->>= _ (update_success_indexes r server next _) _ λ r1 e1.
        Ensures->>= _ (attempt_commit_logs r1 args) _ λ r2 e2.
          Keeps-trans (Ensures-returns (Keeps r) e1 (update_success_indexes-Keeps r server next _))
            (Ensures-returns (Keeps r1) e2 (attempt_commit_logs-Keeps r1 args))

  pub handle_append_entries_response-Keeps :
      (r : Raft C) (reply : AppendEntriesReply) (args : AppendEntriesArgs C) (server : ℕ)
      (next term : ℤ)
      → Ensures
          (λ (o : Raft C × ℤ × Bool). Keeps r o.0)
          (handle_append_entries_response r reply args server next term)
  unfolding handle_append_entries_response
  handle_append_entries_response-Keeps r reply args server next term =
      ground (arith, success-Keeps r args server next, step_down-Keeps r reply.term)
