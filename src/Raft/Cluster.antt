-- ===== src/Raft/Cluster.antt =====
-- `n` peers that run raft.go without a restart: any interleaving of their methods, with messages
-- that are lost, late, repeated or made up, except that the replies which a candidate counts are those
-- of the peers that it asked. `CommitLog` takes its signals and applies entries in steps of its own.
pub mod Count
pub mod Ballots
pub mod Campaigns
pub mod Steps
pub mod Safety
use cs_350_boston_u.Base.{
  ℕ, suc, ◌+◌, ◌<◌, ◌≡◌, Bool, true, false, ◌==◌, if◌then◌else◌, List, Option, none, some, Outcome,
  returns, ◌≢◌, Bool-cases, ==_iff, inl, inr, subst,
}
use cs_350_boston_u.Base.Int.{ℤ, pos, ◌+ℤ◌}
use cs_350_boston_u.Base.Word.{IsInt}
use cs_350_boston_u.Raft.State.{
  Raft, Role, Codec, RequestVoteArgs, RequestVoteReply, AppendEntriesArgs, AppendEntriesReply,
  reset_election_timer,
}
use cs_350_boston_u.Raft.Vote.{request_vote}
use cs_350_boston_u.Raft.Append.{append_entries}
use cs_350_boston_u.Raft.Leader.{start, handle_append_entries_response}
use cs_350_boston_u.Raft.Election.{
  Tally, no_reply, first_tally, add_reply, majority, begin_election, see_reply, end_election,
}
use cs_350_boston_u.Raft.Apply.{ApplyMsg, apply_commits}

-- One run of `election` at a candidate: its arguments, the number of peers asked so far (all below `asked`,
-- and the candidate itself) and the counters.
pub record Campaign : Type 0 where
  pub who : ℕ
  pub args : RequestVoteArgs
  pub asked : ℕ
  pub answer : Option RequestVoteReply
  pub tally : Tally

pub record Cluster (C : Type 0) : Type 0 where
  pub peers : ℕ → Raft C
  pub campaigns : ℕ → Campaign
  pub opened : ℕ

abbrev pub update {ℓ} : {A : Type ℓ} → (ℕ → A) → ℕ → A → ℕ → A
update f i a j = if i == j then a else f j

-- What holds at the place that is written, and elsewhere of the old family, holds of the new one.
pub update_ind {ℓ κ} :
    {A : Type ℓ} (P : ℕ → A → Type κ) (f : ℕ → A) (i : ℕ) (a : A)
    → P i a
    → (j : ℕ) → ((i == j) ≡ false → P j (f j))
    → P j (update f i a j)
update_ind P f i a h j rest = elim (Bool-cases (i == j)) [
  | inl e ↦ rw e (subst (λ x. P x a) ((==_iff i j).0 e) h)
  | inr e ↦ rw e (rest e)
]

-- The campaign after the reply of the peer `asked`.
abbrev pub next_asked : Campaign → RequestVoteReply → Campaign
next_asked k reply = record k {
  asked = suc k.asked;
  answer = none;
  tally = add_reply k.tally reply;
}

module _ {C : Type 0} ⦃codec : Codec C⦄ where
  -- What a peer does on its own account, whatever message it is handed.
  pub data Local (r : Raft C) : Raft C → Type 0 where
    votes : (args : RequestVoteArgs) {r' : Raft C} → r' ≡ (request_vote r args).0 → Local r r'
    appends :
        (args : AppendEntriesArgs C) (reply : AppendEntriesReply) {r' : Raft C}
        → append_entries r args ≡ returns (r', reply)
        → Local r r'
    starts :
        (c : C) (res : ℤ × ℤ × Bool) {r' : Raft C}
        → start r c ≡ returns (r', res.0, res.1, res.2)
        → Local r r'
    hears :
        (reply : AppendEntriesReply) (args : AppendEntriesArgs C) (server : ℕ) (next term : ℤ)
        (res : ℤ × Bool) {r' : Raft C}
        → handle_append_entries_response r reply args server next term ≡ returns (r', res.0, res.1)
        → Local r r'
    applies :
        (msgs : List (ApplyMsg C)) {r' : Raft C} → apply_commits r ≡ returns (r', msgs) → Local r r'
    -- `CommitLog` takes a signal from `Commit`, without the mutex.
    receives :
        (left : ℕ) {r' : Raft C}
        → r.commits ≡ suc left
        → r' ≡ record r { commits = left }
        → Local r r'
    -- `ticker` starts the election timer again.
    ticks : {r' : Raft C} → r' ≡ reset_election_timer r → Local r r'

  pub data Step (n : ℕ) (s : Cluster C) : Cluster C → Type 0 where
    local :
        (i : ℕ) (r' : Raft C)
        → i < n
        → Local (s.peers i) r'
        → Step n s (record s { peers = update s.peers i r' })
    -- A new run of `election`. The term must not be the largest `int`.
    begin :
        (i : ℕ)
        → i < n
        → IsInt ((s.peers i).current_term +ℤ pos 1)
        → Step n s (record {
          peers = update s.peers i (begin_election (s.peers i)).0;
          campaigns = update s.campaigns s.opened (record {
            who = i;
            args = (begin_election (s.peers i)).1;
            asked = 0;
            answer = none;
            tally = first_tally;
          });
          opened = suc s.opened;
        })
    -- The loop passes over the candidate itself.
    skip :
        (k : ℕ)
        → k < s.opened
        → (s.campaigns k).asked ≡ (s.campaigns k).who
        → (s.campaigns k).answer ≡ none
        → Step n s (record s {
          campaigns =
              update s.campaigns k (record (s.campaigns k) { asked = suc (s.campaigns k).asked });
        })
    -- The peer that is asked handles the request; the reply is on its way.
    deliver :
        (k : ℕ)
        → k < s.opened
        → (s.campaigns k).asked < n
        → (s.campaigns k).asked ≢ (s.campaigns k).who
        → Step n s (record s {
          peers =
              update s.peers
                (s.campaigns k).asked
                (request_vote (s.peers (s.campaigns k).asked) (s.campaigns k).args).0;
          campaigns = update s.campaigns k (record (s.campaigns k) {
            answer = some (request_vote (s.peers (s.campaigns k).asked) (s.campaigns k).args).1;
          });
        })
    -- `Call` fails: the request or the reply is lost.
    lose :
        (k : ℕ)
        → k < s.opened
        → (s.campaigns k).asked ≢ (s.campaigns k).who
        → Step n s (record s {
          campaigns = update s.campaigns k (record (s.campaigns k) { answer = some no_reply });
        })
    -- The candidate counts the reply.
    count :
        (k : ℕ) (reply : RequestVoteReply)
        → k < s.opened
        → (s.campaigns k).answer ≡ some reply
        → Step n s (record s {
          peers =
              update s.peers
                (s.campaigns k).who
                (see_reply (s.peers (s.campaigns k).who) (s.campaigns k).args reply);
          campaigns = update s.campaigns k (next_asked (s.campaigns k) reply);
        })
    -- The loop is over, or left early.
    finish :
        (k : ℕ) (r' : Raft C)
        → k < s.opened
        → end_election (s.peers (s.campaigns k).who) (s.campaigns k).args (s.campaigns k).tally
          ≡ returns r'
        → Step n s (record s { peers = update s.peers (s.campaigns k).who r' })

  -- The states that `n` peers reach from a start where `Make` has set each of them up.
  pub data Reach (n : ℕ) (s : Cluster C) : Cluster C → Type 0 where
    here : Reach n s s
    next : {t u : Cluster C} → Reach n s t → Step n t u → Reach n s u
