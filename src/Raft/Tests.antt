-- ===== src/Raft/Tests.antt =====
-- Witnesses: the theorems about the peers, applied to small peers whose commands are numbers.
mod Ballot
mod Log
mod Recovery
mod Office
use cs_350_boston_u.Base.{ℕ, zero, suc, ◌≡◌, refl, ap, List, [], ◌∷◌, ◌++◌, Option, some, none}
use cs_350_boston_u.Base.Int.{ℤ, pos, negsuc}
use cs_350_boston_u.Raft.State.{Raft, Role, LogEntry, Saved, Codec, Persister, minus_one}
use cs_350_boston_u.Raft.Restart.{Lossless}

abbrev int_of : ℕ → ℕ → ℤ
int_of zero n = pos n
int_of (suc s) n = negsuc n

abbrev sign_of : ℤ → ℕ
sign_of (pos n) = 0
sign_of (negsuc n) = 1

abbrev size_of : ℤ → ℕ
size_of (pos n) = n
size_of (negsuc n) = n

int_of-parts : (z : ℤ) → int_of (sign_of z) (size_of z) ≡ z
int_of-parts (pos n) = refl
int_of-parts (negsuc n) = refl

abbrev write_log : List (LogEntry ℕ) → List ℕ
write_log [] = []
write_log (e ∷ es) = e.command ∷ sign_of e.term ∷ size_of e.term ∷ write_log es

abbrev read_log : List ℕ → List (LogEntry ℕ)
read_log (c ∷ s ∷ n ∷ rest) = record { command = c; term = int_of s n } ∷ read_log rest
read_log _ = []

read_log-write_log : (log : List (LogEntry ℕ)) → read_log (write_log log) ≡ log
read_log-write_log [] = refl
read_log-write_log (e ∷ es) =
    λ i. (record { command = e.command; term = int_of-parts e.term i }) ∷ read_log-write_log es i

abbrev read_saved : List ℕ → Option (Saved ℕ)
read_saved (s ∷ t ∷ u ∷ v ∷ log) =
    some (record { term = int_of s t; voted_for = int_of u v; log = read_log log })
read_saved _ = none

-- A concrete encoding in place of the library's.
instance abbrev pub test_codec : Codec ℕ
test_codec = record {
  encode = λ s.
      sign_of s.term ∷ size_of s.term ∷ sign_of s.voted_for ∷ size_of s.voted_for ∷ write_log s.log;
  decode = read_saved;
}

pub test_codec-Lossless : Lossless test_codec
test_codec-Lossless = record {
  decode_encode = λ s i. some (record {
    term = int_of-parts s.term i;
    voted_for = int_of-parts s.voted_for i;
    log = read_log-write_log s.log i;
  });
  nonempty = λ s e. cc;
}

abbrev pub entry : ℕ → ℕ → LogEntry ℕ
entry command term = record { command = command; term = pos term }

-- A peer of three, in a term, with a log.
abbrev pub peer_at : ℕ → ℕ → List (LogEntry ℕ) → Raft ℕ
peer_at me term log = record {
  num_peers = 3;
  me = me;
  current_term = pos term;
  voted_for = minus_one;
  role = Role.follower;
  log = log;
  commit_index = pos 0;
  next_index = [];
  match_index = [];
  last_applied = pos 0;
  log_prev_index = pos 0;
  log_prev_term = pos 0;
  commits = 0;
  election_resets = 0;
  persister = record { raftstate = []; snapshot = [] };
}

abbrev pub short_log : List (LogEntry ℕ)
short_log = entry 0 0 ∷ entry 5 1 ∷ []

abbrev pub long_log : List (LogEntry ℕ)
long_log = entry 0 0 ∷ entry 5 1 ∷ entry 6 2 ∷ entry 7 2 ∷ []

-- A leader of term 3 with the long log; the second peer has all of it.
abbrev pub test_leader : Raft ℕ
test_leader = record (peer_at 0 3 long_log) {
  role = Role.leader;
  voted_for = pos 0;
  next_index = pos 4 ∷ pos 4 ∷ pos 4 ∷ [];
  match_index = pos 3 ∷ pos 2 ∷ pos 0 ∷ [];
}
