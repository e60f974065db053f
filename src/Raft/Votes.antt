-- ===== src/Raft/Votes.antt =====
-- bitdb/raft/raft.h: when a node gives its vote.
use bitdb.Base.{ℕ, ◌≡◌, ◌≤◌, ◌<◌, ◌⊎◌, arith, true, false, none, some, List, [], ◌∷◌, length}
use bitdb.Raft.{
  Raft, candidate, LogEntry, RequestVoteArgs, AppendEntriesArgs, request_vote, cast_vote, catch_up,
  become_follower, begin_new_term, may_vote, is_up_to_date, get_last_log_index, get_log_term,
}
use bitdb.Raft.Entries.{append_entries, receive_entries}

module _ {Command : Type 0} where
  -- The term of the last entry of a log; 0 for an empty one.
  abbrev pub last_term : List (LogEntry Command) → ℕ
  last_term [] = 0
  last_term (e ∷ []) = e.term
  last_term (e ∷ f ∷ log) = last_term (f ∷ log)

  -- The log of a candidate is not behind this one: its last term is later, or it is the same and the
  -- log is at least as long.
  abbrev pub IsCurrent : RequestVoteArgs → List (LogEntry Command) → Type 0
  IsCurrent args log =
      (last_term log < args.last_log_term)
      ⊎ ((last_term log ≡ args.last_log_term) × (length log ≤ args.last_log_index))

  -- The node may still vote for a candidate of this term: it has an older term, or it has this one
  -- and no vote for another candidate.
  abbrev pub IsFree : RequestVoteArgs → Raft Command → Type 0
  IsFree args n =
      (n.current_term < args.term)
      ⊎ ((n.current_term ≡ args.term)
          × ((n.vote_for ≡ none) ⊎ (n.vote_for ≡ some args.candidate_id)))

  -- A running candidate that voted for itself and hears a heartbeat of its own term forgets that
  -- vote, and then gives a second vote in that term, to any candidate whose log is up to date.
  pub candidate_votes_twice :
      (blank : LogEntry Command) (beat : AppendEntriesArgs Command) (args : RequestVoteArgs)
      (n : Raft Command)
      → n.stopped ≡ false
      → n.role ≡ candidate
      → n.vote_for ≡ some n.my_id
      → beat.entries ≡ []
      → beat.term ≡ n.current_term
      → args.term ≡ n.current_term
      → is_up_to_date args n ≡ true
      → ((request_vote args (append_entries blank beat n).1).0.vote_granted ≡ true)
        × ((request_vote args (append_entries blank beat n).1).1.vote_for ≡ some args.candidate_id)
        × ((request_vote args (append_entries blank beat n).1).1.current_term ≡ n.current_term)
  unfolding request_vote cast_vote may_vote catch_up become_follower begin_new_term append_entries
      receive_entries is_up_to_date get_last_log_index get_log_term
  candidate_votes_twice blank beat args n running role vote heartbeat same now fresh =
      (ground arith, ground arith, ground arith)
