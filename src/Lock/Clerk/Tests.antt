-- ===== src/Lock/Clerk/Tests.antt =====
-- Witnesses on three servers, of which the last accepts from the second try on.
use cs_350_boston_u.Base.{
  ℕ, ◌+◌, ◌≤◌, ◌≡◌, ◌&&◌, leb, ◌==◌, true, Option, none, some, if◌then◌else◌, Returns, arith,
}
use cs_350_boston_u.Base.Int.{pos}
use cs_350_boston_u.Lock.Server.{OpType}
use cs_350_boston_u.Lock.Server.Mutex.{Err, MutexArgs}
use cs_350_boston_u.Lock.Clerk.{accepted, make_clerk, send_mutex}
use cs_350_boston_u.Lock.Clerk.Retry.{Served, send_mutex-Served}

abbrev answer : MutexArgs ℕ → ℕ → ℕ → Option Err
answer args try server =
    if leb 1 try && (server == 2)
    then some Err.ok
    else if server == 0
    then none
    else some Err.err_wrong_leader

answer-accepted : (args : MutexArgs ℕ) (t : ℕ) → 1 ≤ t → accepted (answer args t 2) ≡ true
answer-accepted args t le = ground (arith, le)

send_mutex-Served_example :
    Returns
      (Served answer (make_clerk 3 (pos 7)) 5 OpType.lock_op)
      (send_mutex (1 + 3) answer (make_clerk 3 (pos 7)) 5 OpType.lock_op)
send_mutex-Served_example =
    send_mutex-Served answer (make_clerk 3 (pos 7)) 5 OpType.lock_op 1 2 (omega arith) (omega arith)
      answer-accepted
