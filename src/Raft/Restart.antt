-- ===== src/Raft/Restart.antt =====
-- raft.go and persister.go: what a peer saves, and what it has again after a crash. The tests restart
-- a peer by `Make` on a `Copy` of its persister.
use cs_350_boston_u.Base.{
  ℕ, ◌≡◌, ◌≢◌, refl, sym, ap, ◌∙◌, true, arith, List, [], ◌∷◌, some, Outcome, returns, Bool, false,
  if◌then◌else◌,
}
use cs_350_boston_u.Base.Int.{pos, ◌<ℤ◌}
use cs_350_boston_u.Raft.State.{
  Raft, Role, Saved, Codec, RequestVoteArgs, RequestVoteReply, update_last_log_info,
  reset_election_timer, last_index, last_term,
}
use cs_350_boston_u.Raft.Persist.{
  clone, clone_eq, copy, saved_of, persist, restore, read_persist, read_raft_state, save_raft_state,
}
use cs_350_boston_u.Raft.Vote.{request_vote}
use cs_350_boston_u.Raft.Election.{begin_election, see_reply}
use cs_350_boston_u.Raft.Apply.{make, new_raft}

-- What the peer relies on in labgob: a state that was encoded is decoded as it was, and an encoding
-- is never empty.
pub record Lossless {C : Type 0} (codec : Codec C) : Type 0 where
  pub decode_encode : (s : Saved C) → codec.decode (codec.encode s) ≡ some s
  pub nonempty : (s : Saved C) → codec.encode s ≢ []

module _ {C : Type 0} ⦃codec : Codec C⦄ where
  -- The persister holds the peer's term, vote and log.
  abbrev pub Persisted : Raft C → Type 0
  Persisted r = r.persister.raftstate ≡ codec.encode (saved_of r)

  pub persist-Persisted : (r : Raft C) → Persisted (persist r)
  unfolding persist save_raft_state
  persist-Persisted r = clone_eq (codec.encode (saved_of r))

  Persisted-if :
      {R : Type 0} (peer : R → Raft C) (b : Bool) (x y : R)
      → Persisted (peer x)
      → Persisted (peer y)
      → Persisted (peer (if b then x else y))
  Persisted-if peer true x y hx hy = hx
  Persisted-if peer false x y hx hy = hy

  -- If the state of a peer is saved, it is saved again when the peer replies to a request for its
  -- vote.
  pub request_vote-Persisted :
      (r : Raft C) (args : RequestVoteArgs) → Persisted r → Persisted (request_vote r args).0
  unfolding request_vote
  request_vote-Persisted r args h = grind (arith, persist-Persisted)

  pub see_reply-Persisted :
      (r : Raft C) (args : RequestVoteArgs) (reply : RequestVoteReply)
      → Persisted r
      → Persisted (see_reply r args reply)
  unfolding see_reply
  see_reply-Persisted r args reply h = grind (arith, persist-Persisted)

  -- `Make` on a copy of the peer's persister.
  abbrev pub restart : C → Raft C → Outcome (Raft C)
  restart zero_command r = make zero_command r.num_peers r.me (copy r.persister)

  -- A peer that the persister brings back.
  abbrev pub recovered : C → Raft C → Saved C → Raft C
  recovered zero_command r s =
      update_last_log_info (record (new_raft zero_command r.num_peers r.me (copy r.persister)) {
        current_term = s.term;
        voted_for = s.voted_for;
        log = s.log;
      })

  read_persist-encoded :
      Lossless codec
      → (bytes : List ℕ) (s : Saved C) (r : Raft C) → bytes ≡ codec.encode s
      → read_persist bytes r
        ≡ returns (
            update_last_log_info
              (record r { current_term = s.term; voted_for = s.voted_for; log = s.log }))
  unfolding read_persist restore
  read_persist-encoded laws [] s r e = absurd (laws.nonempty s (sym e))
  read_persist-encoded laws (b ∷ bs) s r e =
      ap (restore r) (ap codec.decode e ∙ laws.decode_encode s)

  restart-saved :
      Lossless codec
      → (zero_command : C) (r : Raft C) (s : Saved C) → r.persister.raftstate ≡ codec.encode s
      → restart zero_command r ≡ returns (recovered zero_command r s)
  unfolding make read_raft_state copy
  restart-saved laws zero_command r s h =
      read_persist-encoded laws (clone r.persister.raftstate) s
        (new_raft zero_command r.num_peers r.me (copy r.persister))
        (clone_eq r.persister.raftstate ∙ h)

  -- If the encoding is lossless, a peer whose state is saved has its term, its vote and its log
  -- again after a crash, still saved; it follows, and has committed and applied nothing.
  pub restart_recovers :
      Lossless codec
      → (zero_command : C) (r : Raft C) → Persisted r
      → (r' : Raft C) × (restart zero_command r ≡ returns r')
        × (r'.current_term ≡ r.current_term)
        × (r'.voted_for ≡ r.voted_for)
        × (r'.log ≡ r.log)
        × (r'.role ≡ Role.follower)
        × (r'.commit_index ≡ pos 0)
        × (r'.last_applied ≡ pos 0)
        × Persisted r'
  unfolding update_last_log_info new_raft copy
  restart_recovers laws zero_command r h = (
    recovered zero_command r (saved_of r),
    restart-saved laws zero_command r (saved_of r) h,
    refl,
    refl,
    refl,
    refl,
    refl,
    refl,
    h,
  )

  -- If the encoding is lossless and the state of a peer is saved, then beginning an election the
  -- peer votes for itself, but after a crash it votes in that newer term for any other candidate
  -- with the same last entry.
  pub begin_election_forgets_vote :
      Lossless codec
      → (zero_command : C) (r : Raft C) (args : RequestVoteArgs) → Persisted r
      → args.term ≡ (begin_election r).0.current_term
      → r.current_term <ℤ args.term
      → args.last_log_index ≡ last_index r.log
      → args.last_log_term ≡ last_term r.log
      → ((begin_election r).0.voted_for ≡ pos r.me)
        × ((r' : Raft C) × (restart zero_command (begin_election r).0 ≡ returns r')
            × ((request_vote r' args).1.vote_granted ≡ true))
  unfolding begin_election update_last_log_info reset_election_timer request_vote
  begin_election_forgets_vote laws zero_command r args h same newer last_i last_t = (
    refl,
    (
      recovered zero_command (begin_election r).0 (saved_of r),
      restart-saved laws zero_command (begin_election r).0 (saved_of r) h,
      ground (arith),
    ),
  )
