-- ===== src/Raft/Timers.antt =====
-- raft.go: `requestHeartbeats`, which the heartbeat timer of `ticker` calls, and `CommitLog`. The timers
-- and the goroutines that they start are not in the model: a goroutine is the call that it makes.
use mathlib.Core.List.{append-nil}
use cs_350_boston_u.Base.{
  ℕ, zero, suc, ◌+◌, ◌-◌, ◌^◌, ◌≤◌, ◌<◌, ◌≡◌, refl, ap, ◌∙◌, Bool-cases, true, false, List, [], ◌∷◌,
  ◌++◌, map, length, get_elem?, take, drop, get_elem?-some, ◌==◌, inl, inr, if◌then◌else◌, Outcome,
  returns, blocks, or_panic, Returns, Returns->>=, ◌>>=◌, arith,
}
use cs_350_boston_u.Base.Int.{ℤ, pos}
use cs_350_boston_u.Raft.State.{Raft, is_leader}
use cs_350_boston_u.Raft.Apply.{ApplyMsg, apply_commits}
use cs_350_boston_u.Raft.Apply.Delivery.{numbered, apply_commits_delivers}

-- The call `rf.heartbeat(server, next, term)` of a goroutine.
pub record HeartbeatCall : Type 0 where
  pub server : ℕ
  pub next : ℤ
  pub term : ℤ

module _ {C : Type 0} where
  -- The section of `requestHeartbeats` under the mutex, for a peer other than itself.
  unfoldable pub request_heartbeat : Raft C → ℕ → Outcome (List HeartbeatCall)
  request_heartbeat rf index =
      if is_leader rf.role
      then (do
        next ← or_panic (get_elem? rf.next_index index)
        returns (record { server = index; next = next; term = rf.current_term } ∷ []))
      else returns []

  -- The loop from a peer on, with the rounds left. The peer is `views index` when the round of `index` locks
  -- the mutex: other methods run between the rounds.
  unfoldable pub request_from : (ℕ → Raft C) → ℕ → ℕ → ℕ → Outcome (List HeartbeatCall)
  unfolding request_heartbeat
  request_from views me zero index = returns []
  request_from views me (suc rounds) index =
      let rest = request_from views me rounds (suc index) in
      if me == index
      then rest
      else (do sent ← request_heartbeat (views index) index; more ← rest; returns (sent ++ more))

  -- `requestHeartbeats`
  unfoldable pub request_heartbeats : (ℕ → Raft C) → ℕ → ℕ → Outcome (List HeartbeatCall)
  unfolding request_from
  request_heartbeats views me num_peers = request_from views me num_peers 0

  -- One round of `CommitLog`
  unfoldable pub commit_round : Raft C → Outcome (Raft C × List (ApplyMsg C))
  commit_round rf = elim rf.commits [
    | zero ↦ blocks
    | suc left ↦ apply_commits (record rf { commits = left })
  ]

  -- The rounds of `CommitLog` before the peer is killed, with nothing in between.
  unfoldable pub commit_log : ℕ → Raft C → Outcome (Raft C × List (ApplyMsg C))
  unfolding commit_round
  commit_log zero rf = returns (rf, [])
  commit_log (suc rounds) rf = do
    (rf', msgs) ← commit_round rf
    (rf'', more) ← commit_log rounds rf'
    returns (rf'', msgs ++ more)

-- The peers from an index on, other than one.
abbrev pub other_peers : ℕ → ℕ → ℕ → List ℕ
other_peers me zero index = []
other_peers me (suc rounds) index =
    let rest = other_peers me rounds (suc index) in if me == index then rest else index ∷ rest

module _ {C : Type 0} where
  request_from-other_peers :
      (views : ℕ → Raft C) (me n : ℕ)
      → ((i : ℕ) → is_leader (views i).role ≡ true)
      → ((i : ℕ) → length (views i).next_index ≡ n)
      → (rounds index : ℕ) → index + rounds ≡ n
      → Returns
          (λ calls. map (λ call. call.server) calls ≡ other_peers me rounds index)
          (request_from views me rounds index)
  unfolding request_from request_heartbeat
  request_from-other_peers views me n leads full zero index all = refl
  request_from-other_peers views me n leads full (suc rounds) index all =
      let rest = request_from-other_peers views me n leads full rounds (suc index) (omega arith) in
      elim (Bool-cases (me == index)) [
        | inl it ↦ rw it rest
        | inr other ↦
            let (next, there) =
              get_elem?-some (views index).next_index index (omega (arith, full index)) in
            rw (other, leads index, there)
              (Returns->>= _ _ (request_from views me rounds (suc index)) _ rest
                (λ more e. ap (λ servers. index ∷ servers) e))
      ]

  -- A peer that leads in each round, with a next index for each peer, calls `heartbeat` once for each other
  -- peer, in order.
  request_heartbeats-other_peers :
      (views : ℕ → Raft C) (me n : ℕ)
      → ((i : ℕ) → is_leader (views i).role ≡ true)
      → ((i : ℕ) → length (views i).next_index ≡ n)
      → Returns
          (λ calls. map (λ call. call.server) calls ≡ other_peers me n 0)
          (request_heartbeats views me n)
  unfolding request_heartbeats
  request_heartbeats-other_peers views me n leads full =
      request_from-other_peers views me n leads full n 0 (omega arith)

  -- A peer that leads in no round sends nothing.
  request_from-follower :
      (views : ℕ → Raft C) (me : ℕ)
      → ((i : ℕ) → is_leader (views i).role ≡ false)
      → (rounds index : ℕ) → request_from views me rounds index ≡ returns []
  unfolding request_from request_heartbeat
  request_from-follower views me follows zero index = refl
  request_from-follower views me follows (suc rounds) index =
      rw (follows index, request_from-follower views me follows rounds (suc index)) (ground arith)

  -- The peer with a last applied index, a commit index and signals.
  abbrev pub committed : Raft C → ℕ → ℕ → ℕ → Raft C
  committed r a c signals = record r {
    last_applied = pos a;
    commit_index = pos c;
    commits = signals;
  }

  commit_round-numbered :
      (signals : ℕ) (r : Raft C) (a c : ℕ)
      → a ≤ c
      → c < length r.log
      → length r.log < 2 ^ 62
      → commit_round (committed r a c (suc signals))
        ≡ returns (committed r c c signals, numbered (suc a) (take (c - a) (drop (suc a) r.log)))
  unfolding commit_round
  commit_round-numbered signals r a c le fits small =
      apply_commits_delivers (committed r a c signals) a c refl refl le fits small

  none_left : (r : Raft C) (c : ℕ) → numbered (suc c) (take (c - c) (drop (suc c) r.log)) ≡ []
  none_left r c =
      let zero_more : c - c ≡ 0 = omega arith in
      ap (λ n. numbered (suc c) (take n (drop (suc c) r.log))) zero_more

  -- With at least one signal in the channel, `CommitLog` takes all of them, hands the service the entries
  -- after the last applied one and up to the commit index, once, and then waits. The log is shorter than
  -- 2^62, the commit index is that of an entry, and not below the last applied index.
  pub commit_log-numbered :
      (rounds : ℕ) (r : Raft C) (a c : ℕ)
      → a ≤ c
      → c < length r.log
      → length r.log < 2 ^ 62
      → (commit_log (suc rounds) (committed r a c (suc rounds))
          ≡ returns (committed r c c 0, numbered (suc a) (take (c - a) (drop (suc a) r.log))))
        × (commit_round (committed r c c 0) ≡ blocks)
  unfolding commit_log commit_round
  commit_log-numbered zero r a c le fits small = (
    rw (commit_round-numbered 0 r a c le fits small)
        (ap (λ msgs. returns (committed r c c 0, msgs)) (append-nil _)),
    refl,
  )
  commit_log-numbered (suc rounds) r a c le fits small =
      let msgs = numbered (suc a) (take (c - a) (drop (suc a) r.log)) in
      (
        rw (commit_round-numbered (suc rounds) r a c le fits small) (
            rw (commit_log-numbered rounds r c c (omega arith) fits small).0 (
              ap (λ more. returns (committed r c c 0, msgs ++ more)) (none_left r c)
              ∙ ap (λ all. returns (committed r c c 0, all)) (append-nil msgs))),
        refl,
      )
