-- ===== src/Lock/Tests.antt =====
-- Witnesses on a store whose keys and clients are numbers.
use cs_350_boston_u.Base.{
  ℕ, ◌≡◌, refl, ◌==◌, ==_iff, true, none, some, List, [], ◌∷◌, returns, if◌then◌else◌, arith,
}
use cs_350_boston_u.Base.Comparable.{Comparable}
use cs_350_boston_u.Lock.{MultiMap, exists, at, get_lock_owner, unlock}
use cs_350_boston_u.Lock.Queues.{holder, NoDup}
use cs_350_boston_u.Lock.Requests.{
  Request, run, serve_all, step, run-serve_all, run-NoDup, unlock_hands_over, step_keeps_owner,
}

instance abbrev numbers : Comparable ℕ
numbers = record { eqb = λ a b. a == b; eqb_iff = ==_iff }

abbrev no_locks : MultiMap ℕ ℕ
no_locks _ = none

abbrev requests : List (Request ℕ ℕ)
requests = Request.locks 7 1 ∷ Request.locks 7 2 ∷ Request.locks 7 1 ∷ Request.unlocks 7 1 ∷ []

run-serve_all_example :
    get_lock_owner 0 (run requests no_locks) 7 ≡ holder 0 (serve_all requests (at no_locks) 7)
run-serve_all_example = run-serve_all 0 requests no_locks 7 (λ k e. cc)

run-NoDup_example : NoDup (at (run requests no_locks) 7)
run-NoDup_example = run-NoDup requests no_locks (λ k. tt) 7

-- The first client holds the lock, the second waits.
abbrev two_waiting : MultiMap ℕ ℕ
two_waiting k = if k == 7 then some (1 ∷ 2 ∷ []) else none

two_waiting-Clean : (k : ℕ) → ¬ (two_waiting k ≡ some [])
two_waiting-Clean k e = ground (arith, e)

unlock_hands_over_example :
    (at (unlock two_waiting 7 1) 7 ≡ 2 ∷ [])
    × (get_lock_owner 0 (unlock two_waiting 7 1) 7 ≡ holder 0 (2 ∷ []))
unfolding exists
unlock_hands_over_example =
    unlock_hands_over 0 two_waiting 7 1 (2 ∷ []) two_waiting-Clean refl (refl, (refl, tt))

step_keeps_owner_example :
    get_lock_owner 0 (step (Request.unlocks 7 2) two_waiting) 7 ≡ returns (1, true)
unfolding get_lock_owner
step_keeps_owner_example =
    step_keeps_owner 0 (Request.unlocks 7 2) two_waiting 7 1 two_waiting-Clean refl (λ e. cc)
