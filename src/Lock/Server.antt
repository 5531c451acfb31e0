-- ===== src/Lock/Server.antt =====
-- raft-lock/server.go: the body of `applyOpsLoop`, which applies what Raft has committed. The body of
-- `applyToStateMachine` is empty, so its calls are only listed. Each channel of `results` holds one
-- operation, so it is the operation that waits in it, or none.
pub mod Duplicates
pub mod Mutex
pub mod Delivery
pub mod Happenings
pub mod Waiting
mod Tests
use cs_350_boston_u.Base.{
  ℕ, zero, suc, ◌+◌, ◌%◌, Bool, true, false, not, ◌&&◌, Option, none, some, List, [], ◌∷◌,
  if◌then◌else◌, Outcome, returns, panics, blocks, ◌>>=◌,
}
use cs_350_boston_u.Base.Int.{ℤ, ltb_ℤ, eqb_ℤ}
use cs_350_boston_u.Raft.Apply.{ApplyMsg}

-- `OpType`
pub data OpType : Type 0 where
  lock_op unlock_op request_lock_op acquire_lock_op request_unlock_op : OpType

-- `Op`
pub record Op (K : Type 0) : Type 0 where
  pub kind : OpType
  pub key : K
  pub client_id : ℤ
  pub request_id : ℤ

-- `LockServer`. `calls` lists the operations that `applyToStateMachine` has been called with, the last
-- one first; it stands for what the calls do, and no code reads it.
pub record LockServer (K : Type 0) : Type 0 where
  pub results : ℤ → Option (Option (Op K))
  pub last_applied : ℤ → Option ℤ
  pub calls : List (Op K)

abbrev pub assign {ℓ} : {A : Type ℓ} → (ℤ → Option A) → ℤ → A → ℤ → Option A
assign m key v k = if eqb_ℤ key k then some v else m k

module _ {K : Type 0} where
  abbrev apply_to_state_machine : Op K → LockServer K → LockServer K
  apply_to_state_machine op ls = record ls { calls = op ∷ ls.calls }

  -- Is the request newer than the last one of its client that was applied?
  abbrev pub is_new : LockServer K → Op K → Bool
  is_new ls op = elim (ls.last_applied op.client_id) [
    | none ↦ true
    | some last_id ↦ ltb_ℤ last_id op.request_id
  ]

  unfoldable pub apply_once : Op K → LockServer K → LockServer K
  apply_once op ls =
      if is_new ls op
      then (let ls' = apply_to_state_machine op ls in
          record ls' { last_applied = assign ls'.last_applied op.client_id op.request_id })
      else ls

  -- `opCh <- op`, on a channel that is made if there is none. A full channel blocks, under the mutex.
  unfoldable pub send_result : ℤ → Op K → LockServer K → Outcome (LockServer K)
  send_result index op ls = elim (ls.results index) [
    | some (some waiting) ↦ blocks
    | _ ↦ returns (record ls { results = assign ls.results index (some op) })
  ]

  -- The body of the loop, on a message whose command is an `Op`, or else another value.
  unfoldable pub apply_msg : ApplyMsg (Option (Op K)) → LockServer K → Outcome (LockServer K)
  unfolding apply_once send_result
  apply_msg msg ls = if not msg.command_valid then returns ls else elim msg.command [
    | none ↦ returns ls
    | some op ↦ send_result msg.command_index op (apply_once op ls)
  ]

  -- `isSameOp`
  unfoldable pub is_same_op : Op K → Op K → Bool
  is_same_op issued applied =
      eqb_ℤ issued.client_id applied.client_id && eqb_ℤ issued.request_id applied.request_id
