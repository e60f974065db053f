-- ===== src/Raft.antt =====
-- bitdb/raft/raft.h, raft_protocol.h and raft_storage.h: a node of the consensus protocol. Each
-- handler holds `mtx_` from start to end, so it is one step. Node ids, terms and indices that nodes
-- send are never negative. The clock, the sockets and the threads are left out: `stopped` is the
-- flag that Stop sets.
pub mod Entries
pub mod Election
pub mod Soundness
pub mod Following
pub mod Leading
pub mod Terms
pub mod Replication
pub mod Leader
pub mod Applying
pub mod Votes
pub mod Late
use bitdb.Base.{
  ℕ, zero, suc, ◌+◌, ◌-◌, ◌/◌, ◌^◌, ◌≡◌, Bool, true, false, ◌&&◌, ◌||◌, Option, none, some, List,
  [], ◌∷◌, ◌++◌, length, take, drop, get_elem?, ltb, leb, ◌==◌, if◌then◌else◌, ◌>>=◌,
}

-- The `int` of an index that a leader keeps; it can go below zero.
pub data ℤ : Type 0 where
  pos negsuc : ℕ → ℤ

pub data Role : Type 0 where
  follower candidate leader : Role

pub record RequestVoteArgs : Type 0 where
  pub term : ℕ
  pub candidate_id : ℕ
  pub last_log_index : ℕ
  pub last_log_term : ℕ

pub record RequestVoteReply : Type 0 where
  pub term : ℕ
  pub vote_granted : Bool

pub record LogEntry (Command : Type 0) : Type 0 where
  pub cmd : Command
  pub term : ℕ

pub record AppendEntriesArgs (Command : Type 0) : Type 0 where
  pub term : ℕ
  pub leader_id : ℕ
  pub prev_log_index : ℕ
  pub prev_log_term : ℕ
  pub entries : List (LogEntry Command)
  pub leader_commit : ℕ

pub record AppendEntriesReply : Type 0 where
  pub term : ℕ
  pub success : Bool

-- RaftStorage, with what Flush has written, the last one first.
pub record Storage (Command : Type 0) : Type 0 where
  pub current_term : ℕ
  pub vote_for : Option ℕ
  pub log : List (LogEntry Command)
  pub flushed : List (ℕ × Option ℕ × List (LogEntry Command))

-- A node; `vote_for_` and `storage_->vote_for` are -1 for none.
pub record Raft (Command : Type 0) : Type 0 where
  pub my_id : ℕ
  pub num_nodes : ℕ
  pub stopped : Bool
  pub role : Role
  pub current_term : ℕ
  pub vote_for : Option ℕ
  pub follower_id_set : List ℕ
  pub storage : Storage Command
  pub commit_index : ℕ
  pub last_applied : ℕ
  pub next_index : List ℤ
  pub match_index : List ℤ

abbrev pub is_role : Role → Role → Bool
is_role follower follower = true
is_role candidate candidate = true
is_role leader leader = true
is_role a b = false

abbrev is_none : Option ℕ → Bool
is_none none = true
is_none (some i) = false

abbrev is_id : Option ℕ → ℕ → Bool
is_id none i = false
is_id (some j) i = j == i

-- emplace of a std::set
unfoldable pub has_id : List ℕ → ℕ → Bool
has_id [] i = false
has_id (j ∷ js) i = let rest = has_id js i in j == i || rest

abbrev emplace_id : List ℕ → ℕ → List ℕ
emplace_id ids i = if has_id ids i then ids else i ∷ ids

abbrev repeat : ℕ → ℤ → List ℤ
repeat zero x = []
repeat (suc n) x = x ∷ repeat n x

module _ {Command : Type 0} where
  -- Raft::Raft on a storage
  unfoldable pub new_raft : ℕ → ℕ → Storage Command → Raft Command
  new_raft my_id num_nodes storage = record {
    my_id = my_id;
    num_nodes = num_nodes;
    stopped = false;
    role = follower;
    current_term = 0;
    vote_for = none;
    follower_id_set = [];
    storage = storage;
    commit_index = 0;
    last_applied = 0;
    next_index = [];
    match_index = [];
  }

  -- RaftStorage::Flush
  unfoldable pub flush : Storage Command → Storage Command
  flush s = record s { flushed = (s.current_term, s.vote_for, s.log) ∷ s.flushed }

  unfoldable pub add_log : LogEntry Command → Storage Command → Storage Command
  add_log entry s = record s { log = s.log ++ (entry ∷ []) }

  -- `log.resize(n)` to a larger size
  unfoldable pub grow : LogEntry Command → ℕ → List (LogEntry Command) → List (LogEntry Command)
  grow blank zero log = log
  grow blank (suc n) [] = blank ∷ grow blank n []
  grow blank (suc n) (e ∷ log) = e ∷ grow blank n log

  -- `log[index + i] = entries[i]` for all i; behind the end there is nothing to write to
  unfoldable pub overwrite :
      ℕ → List (LogEntry Command) → List (LogEntry Command) → List (LogEntry Command)
  overwrite index entries [] = []
  overwrite zero [] log = log
  overwrite zero (x ∷ entries) (e ∷ log) = x ∷ overwrite zero entries log
  overwrite (suc index) entries (e ∷ log) = e ∷ overwrite index entries log

  -- RaftStorage::AddLog at an index; `blank` is the entry that `resize` makes.
  unfoldable pub add_log_at :
      LogEntry Command → ℕ → List (LogEntry Command) → Storage Command → Storage Command
  add_log_at blank index entries s = record s {
    log = overwrite index entries (grow blank (index + length entries) s.log);
  }

  unfoldable pub get_last_log_index : Raft Command → ℕ
  get_last_log_index n = length n.storage.log

  abbrev pub term_at : List (LogEntry Command) → ℕ → ℕ
  term_at [] i = 0
  term_at (e ∷ log) zero = e.term
  term_at (e ∷ log) (suc i) = term_at log i

  -- Raft::GetLogTerm, where -1 is `none`
  unfoldable pub get_log_term : Raft Command → ℕ → Option ℕ
  get_log_term n log_index =
      if ltb (length n.storage.log) log_index
      then none
      else if log_index == 0
      then some 0
      else some (term_at n.storage.log (log_index - 1))

  unfoldable pub begin_new_term : ℕ → Raft Command → Raft Command
  unfolding flush
  begin_new_term term n = record n {
    current_term = term;
    follower_id_set = [];
    storage = flush (record n.storage { current_term = term; vote_for = none });
  }

  unfoldable pub become_follower : ℕ → Raft Command → Raft Command
  unfolding begin_new_term
  become_follower term n = begin_new_term term (record n { role = follower; vote_for = none })

  unfoldable pub become_candidate : ℕ → Raft Command → Raft Command
  unfolding begin_new_term
  become_candidate term n =
      begin_new_term term (record n { role = candidate; vote_for = some n.my_id })

  unfoldable pub become_leader : Raft Command → Raft Command
  become_leader n = record n {
    role = leader;
    next_index = repeat n.num_nodes (pos (length n.storage.log + 1));
    match_index = repeat n.num_nodes (pos 0);
  }

  -- `if (args.term > current_term_) BecomeFollower(args.term)`
  unfoldable pub catch_up : ℕ → Raft Command → Raft Command
  catch_up term n = if ltb n.current_term term then become_follower term n else n

  -- The log of the candidate against the node's: a later last term, or a log that is as long.
  unfoldable pub is_up_to_date : RequestVoteArgs → Raft Command → Bool
  is_up_to_date args n =
      let last = get_last_log_index n in
      elim (get_log_term n last) [
        | none ↦ true
        | some term ↦
            ltb term args.last_log_term
            || (term == args.last_log_term && leb last args.last_log_index)
      ]

  unfoldable pub may_vote : RequestVoteArgs → Raft Command → Bool
  may_vote args n =
      args.term == n.current_term && (is_none n.vote_for || is_id n.vote_for args.candidate_id)

  -- Raft::RequestVote behind the change of the term
  unfoldable pub cast_vote : RequestVoteArgs → Raft Command → RequestVoteReply × Raft Command
  cast_vote args n =
      if may_vote args n && is_up_to_date args n
      then (
        record { term = n.current_term; vote_granted = true },
        record n { vote_for = some args.candidate_id },
      )
      else (record { term = n.current_term; vote_granted = false }, n)

  -- Raft::RequestVote
  unfoldable pub request_vote : RequestVoteArgs → Raft Command → RequestVoteReply × Raft Command
  request_vote args n =
      if n.stopped
      then (record { term = 0; vote_granted = false }, n)
      else cast_vote args (catch_up args.term n)
