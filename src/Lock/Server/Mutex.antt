-- ===== src/Lock/Server/Mutex.antt =====
-- raft-lock/server.go: the handler `Mutex`, which waits for its operation to be applied. What `Start` of
-- Raft returns, what happens while the handler waits, and whether the timer goes off first, are arguments.
use cs_350_boston_u.Base.{
  Bool, false, Option, none, some, List, [], ◌∷◌, [], if◌then◌else◌, not, Outcome, returns, ◌>>=◌,
}
use cs_350_boston_u.Base.Int.{ℤ}
use cs_350_boston_u.Raft.Apply.{ApplyMsg}
use cs_350_boston_u.Lock.Server.{OpType, Op, LockServer, assign, apply_msg, is_same_op}

-- The error of a `MutexReply`
pub data Err : Type 0 where
  ok err_no_key err_wrong_leader : Err

-- `MutexArgs`
pub record MutexArgs (K : Type 0) : Type 0 where
  pub key : K
  pub op : OpType
  pub client_id : ℤ
  pub request_id : ℤ

-- `ReceiveLockArgs`, and the end of the clerk that it is sent to.
pub record ReceiveLock (K E : Type 0) : Type 0 where
  pub endpoint : E
  pub key : K

-- What the server does besides: the loop applies a message, and other handlers make a channel for an index
-- and take out what waits in it.
pub data Happening (K : Type 0) : Type 0 where
  applies : ApplyMsg (Option (Op K)) → Happening K
  opens takes : ℤ → Happening K

-- `StartLockServer`
abbrev pub start_lock_server : {K : Type 0} → LockServer K
start_lock_server = record { results = λ _. none; last_applied = λ _. none; calls = [] }

-- `giveLockToOwner`: the call that it makes, if any.
unfoldable pub give_lock_to_owner :
    {K E : Type 0} → Bool → (ℤ → Option E) → K → ℤ → Option (ReceiveLock K E)
give_lock_to_owner is_leader clerk_ends key lock_owner =
    if is_leader
    then elim (clerk_ends lock_owner) [
      | none ↦ none
      | some endpoint ↦ some (record { endpoint = endpoint; key = key })
    ]
    else none

module _ {K : Type 0} where
  -- The channel of the index is made if there is none.
  unfoldable pub open_result : ℤ → LockServer K → LockServer K
  open_result index ls = elim (ls.results index) [
    | none ↦ record ls { results = assign ls.results index none }
    | some opCh ↦ ls
  ]

  -- The `select`: the operation that waits in the channel is taken out, unless the timer goes off.
  unfoldable pub receive : Bool → ℤ → Op K → LockServer K → LockServer K × Bool × Op K
  receive timed_out index op ls = elim (ls.results index) [
    | some (some applied) ↦
        if timed_out
        then (ls, false, op)
        else (record ls { results = assign ls.results index none }, is_same_op op applied, applied)
    | _ ↦ (ls, false, op)
  ]

  -- A handler takes out what waits in a channel.
  unfoldable pub take_result : ℤ → LockServer K → LockServer K
  take_result index ls = elim (ls.results index) [
    | some (some applied) ↦ record ls { results = assign ls.results index none }
    | _ ↦ ls
  ]

  unfoldable pub happen : Happening K → LockServer K → Outcome (LockServer K)
  happen (Happening.applies msg) ls = apply_msg msg ls
  happen (Happening.opens index) ls = returns (open_result index ls)
  happen (Happening.takes index) ls = returns (take_result index ls)

  unfoldable pub happen_all : List (Happening K) → LockServer K → Outcome (LockServer K)
  unfolding happen
  happen_all [] ls = returns ls
  happen_all (h ∷ hs) ls = do ls' ← happen h ls; happen_all hs ls'

  -- `waitForApplied`, while these things happen before it has its channel and after.
  unfoldable pub wait_for_applied :
      ℤ × ℤ × Bool
      → List (Happening K) × List (Happening K)
      → Bool
      → Op K
      → LockServer K
      → Outcome (LockServer K × Bool × Op K)
  unfolding open_result receive happen_all
  wait_for_applied (index, term, is_leader) (early, late) timed_out op ls =
      if not is_leader then returns (ls, false, op) else (do
        ls1 ← happen_all early ls
        ls2 ← happen_all late (open_result index ls1)
        returns (receive timed_out index op ls2))

  abbrev pub op_of : MutexArgs K → Op K
  op_of args = record {
    kind = args.op;
    key = args.key;
    client_id = args.client_id;
    request_id = args.request_id;
  }

  -- `Mutex`, with the error of the reply.
  unfoldable pub mutex :
      ℤ × ℤ × Bool
      → List (Happening K) × List (Happening K)
      → Bool
      → MutexArgs K
      → LockServer K
      → Outcome (LockServer K × Err)
  unfolding wait_for_applied
  mutex started events timed_out args ls = do
    (ls', same, _) ← wait_for_applied started events timed_out (op_of args) ls
    returns (ls', if not same then Err.err_wrong_leader else Err.ok)
