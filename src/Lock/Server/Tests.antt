-- ===== src/Lock/Server/Tests.antt =====
-- Witnesses on a server that has applied one request of one client.
use cs_350_boston_u.Base.{
  ℕ, ◌≡◌, refl, inl, ◌⊎◌, returns, panics, blocks, true, false, Option, none, some, List, [], ◌∷◌,
  Returns, if◌then◌else◌, arith,
}
use cs_350_boston_u.Base.Int.{pos, eqb_ℤ}
use cs_350_boston_u.Raft.Apply.{ApplyMsg}
use cs_350_boston_u.Lock.Server.{
  OpType, Op, LockServer, apply_once, apply_msg, send_result, is_same_op,
}
use cs_350_boston_u.Lock.Server.Mutex.{
  MutexArgs, op_of, mutex, Happening, happen, happen_all, wait_for_applied, open_result,
  take_result, receive,
}
use cs_350_boston_u.Lock.Server.Delivery.{Applied}
use cs_350_boston_u.Lock.Server.Happenings.{Delivered}
use cs_350_boston_u.Lock.Server.Waiting.{mutex-ok}
use cs_350_boston_u.Lock.Server.Duplicates.{Once, apply_msg-Once}

abbrev first_op : Op ℕ
first_op = record { kind = OpType.lock_op; key = 7; client_id = pos 1; request_id = pos 1 }

abbrev after_first : LockServer ℕ
after_first = record {
  results = λ _. none;
  last_applied = λ k. if eqb_ℤ (pos 1) k then some (pos 1) else none;
  calls = first_op ∷ [];
}

-- The same request again, at a later index.
abbrev again : ApplyMsg (Option (Op ℕ))
again = record { command_valid = true; command = some first_op; command_index = pos 2 }

after_first-Once : Once after_first
after_first-Once = ((tt, tt), ((pos 1, refl, omega arith), tt))

apply_msg-Once_example : Returns Once (apply_msg again after_first)
apply_msg-Once_example = apply_msg-Once again after_first (λ waiting full. cc) after_first-Once

abbrev second_args : MutexArgs ℕ
second_args = record { key = 7; op = OpType.unlock_op; client_id = pos 1; request_id = pos 2 }

-- A message of another client is applied before the handler has its channel at index 5. Then another
-- handler takes that out, and the handler's own message is applied.
abbrev early : List (Happening ℕ)
early =
    Happening.opens (pos 4)
    ∷ Happening.applies (record {
      command_valid = true;
      command = some (record first_op { client_id = pos 9 });
      command_index = pos 4;
    })
    ∷ []

abbrev late : List (Happening ℕ)
late =
    Happening.takes (pos 4)
    ∷ Happening.applies
        (record { command_valid = true; command = some (op_of second_args); command_index = pos 5 })
    ∷ []

abbrev after_second : LockServer ℕ
unfolding mutex wait_for_applied open_result take_result receive happen happen_all apply_msg
    apply_once send_result is_same_op
after_second = elim (mutex (pos 5, pos 1, true) (early, late) false second_args after_first) [
  | returns (ls, _) ↦ ls
  | panics ↦ after_first
  | blocks ↦ after_first
]

mutex-ok_example :
    (◌≡◌ true true)
    × ((a : Op ℕ) × (Delivered (pos 5) a early ⊎ Delivered (pos 5) a late)
        × (a.client_id ≡ pos 1)
        × (a.request_id ≡ pos 2))
    × Applied (op_of second_args) after_second
unfolding mutex wait_for_applied open_result take_result receive happen happen_all apply_msg
    apply_once send_result is_same_op after_second
mutex-ok_example =
    mutex-ok (pos 5) (pos 1) true false early late second_args after_first after_second (inl refl)
      refl
