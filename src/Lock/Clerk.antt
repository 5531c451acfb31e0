-- ===== src/Lock/Clerk.antt =====
-- raft-lock/clerk.go: the client, which asks one server after the other until one accepts. There are `n`
-- servers, fewer than 2^31, so a server's number is an `int32`. What a call comes to is a parameter: for
-- the number of the try and the server, the error of the reply, or none when the call fails.
pub mod Retry
mod Tests
use cs_350_boston_u.Base.{
  ℕ, zero, suc, ◌+◌, ◌%◌, ltb, Bool, true, false, Option, none, some, if◌then◌else◌, Outcome,
  returns, panics, ◌>>=◌,
}
use cs_350_boston_u.Base.Int.{ℤ, pos}
use cs_350_boston_u.Base.Word.{add_int}
use cs_350_boston_u.Lock.Server.{OpType}
use cs_350_boston_u.Lock.Server.Mutex.{Err, MutexArgs}

-- `Clerk`, with the number of its servers.
pub record Clerk : Type 0 where
  pub servers : ℕ
  pub leader_id : ℕ
  pub client_id : ℤ
  pub request_id : ℤ

-- `MakeClerk`
abbrev pub make_clerk : ℕ → ℤ → Clerk
make_clerk servers client_id = record {
  servers = servers;
  leader_id = 0;
  client_id = client_id;
  request_id = pos 0;
}

-- `ok && reply.Err != ErrWrongLeader`
abbrev pub accepted : Option Err → Bool
accepted none = false
accepted (some Err.ok) = true
accepted (some Err.err_no_key) = true
accepted (some Err.err_wrong_leader) = false

-- The loop, from this try and server: the server that accepts, or none when the fuel is spent.
unfoldable pub try_servers : ℕ → (ℕ → ℕ → Option Err) → ℕ → ℕ → ℕ → Outcome (Option ℕ)
try_servers zero call n try server = returns none
try_servers (suc fuel) call n try server =
    let rest = try_servers fuel call n (suc try) ((server + 1) % n) in
    if ltb server n
    then (if accepted (call try server) then returns (some server) else rest)
    else panics

module _ {K : Type 0} where
  abbrev pub mutex_args : Clerk → K → OpType → MutexArgs K
  mutex_args ck key op = record {
    key = key;
    op = op;
    client_id = ck.client_id;
    request_id = ck.request_id;
  }

  -- `SendMutex`: the clerk and the server that accepts, or none when the fuel is spent.
  unfoldable pub send_mutex :
      ℕ → (MutexArgs K → ℕ → ℕ → Option Err) → Clerk → K → OpType → Outcome (Option Clerk)
  unfolding try_servers
  send_mutex fuel call ck0 key op = do
    let ck = record ck0 { request_id = add_int ck0.request_id (pos 1) }
    found ← try_servers fuel (call (mutex_args ck key op)) ck.servers 0 ck.leader_id
    returns (elim found [ none ↦ none | some server ↦ some (record ck { leader_id = server }) ])

  -- `Lock` and `Unlock`
  abbrev pub lock : ℕ → (MutexArgs K → ℕ → ℕ → Option Err) → Clerk → K → Outcome (Option Clerk)
  lock fuel call ck key = send_mutex fuel call ck key OpType.lock_op

  abbrev pub unlock : ℕ → (MutexArgs K → ℕ → ℕ → Option Err) → Clerk → K → Outcome (Option Clerk)
  unlock fuel call ck key = send_mutex fuel call ck key OpType.unlock_op
