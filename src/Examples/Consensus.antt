-- ===== src/Examples/Consensus.antt =====
-- The consensus node at concrete inputs.
use bitdb.Base.{ℕ, ◌-◌, ◌<◌, ◌≡◌, refl, arith, true, false, none, some, [], ◌∷◌, take, drop}
use bitdb.Raft.{
  Raft, Storage, LogEntry, RequestVoteArgs, AppendEntriesArgs, new_raft, candidate, request_vote,
  is_up_to_date, become_candidate, begin_new_term, flush, RequestVoteReply, get_log_term,
  get_last_log_index,
}
use bitdb.Raft.Entries.{append_entries, apply_committed}
use bitdb.Raft.Election.{start_election, receive_vote}
use bitdb.Raft.Applying.{commands, apply_committed_lem}
use bitdb.Raft.Terms.{Step, Steps, rest, more, Step-Rises}
use bitdb.Raft.Soundness.{IsSound, Rises}
use bitdb.Raft.Late.{late_reply_votes_twice}
use bitdb.Raft.Votes.{candidate_votes_twice}

-- Commands are numbers here.
abbrev blank : LogEntry ℕ
blank = record { cmd = 0; term = 0 }

abbrev nine : LogEntry ℕ
nine = record { cmd = 9; term = 1 }

abbrev storage : Storage ℕ
storage = record { current_term = 0; vote_for = none; log = []; flushed = [] }

abbrev logged : Storage ℕ
logged = record storage { log = nine ∷ record { cmd = 8; term = 2 } ∷ [] }

abbrev node : Raft ℕ
node = new_raft 0 3 storage

abbrev asking : Raft ℕ
asking = record {
  my_id = 0;
  num_nodes = 3;
  stopped = false;
  role = candidate;
  current_term = 5;
  vote_for = some 0;
  follower_id_set = [];
  storage = logged;
  commit_index = 1;
  last_applied = 0;
  next_index = [];
  match_index = [];
}

abbrev request : RequestVoteArgs
request = record { term = 5; candidate_id = 2; last_log_index = 4; last_log_term = 3 }

abbrev newer : RequestVoteArgs
newer = record { term = 6; candidate_id = 2; last_log_index = 4; last_log_term = 3 }

abbrev beat : AppendEntriesArgs ℕ
beat = record {
  term = 5;
  leader_id = 1;
  prev_log_index = 0;
  prev_log_term = 0;
  entries = [];
  leader_commit = 0;
}

candidate_votes_twice_example :
    ((request_vote request (append_entries blank beat asking).1).0.vote_granted ≡ true)
    × ((request_vote request (append_entries blank beat asking).1).1.vote_for ≡ some 2)
    × ((request_vote request (append_entries blank beat asking).1).1.current_term ≡ 5)
unfolding is_up_to_date get_log_term get_last_log_index
candidate_votes_twice_example =
    candidate_votes_twice blank beat request asking refl refl refl refl refl refl refl

-- The request for votes of `asking` in a term.
abbrev bid : ℕ → RequestVoteArgs
bid term = record { term = term; candidate_id = 0; last_log_index = 2; last_log_term = 2 }

abbrev seventh : Raft ℕ
seventh = become_candidate 7 (become_candidate 6 asking)

abbrev eighth : Raft ℕ
eighth = become_candidate 8 seventh

abbrev rival : RequestVoteArgs
rival = record { term = 7; candidate_id = 2; last_log_index = 4; last_log_term = 3 }

abbrev late_reply : RequestVoteReply
late_reply = record { term = 7; vote_granted = false }

late_reply_votes_twice_example :
    (seventh.current_term ≡ 7)
    × (seventh.vote_for ≡ some 0)
    × ((receive_vote 6 2 late_reply eighth).current_term < eighth.current_term)
    × ((request_vote rival (receive_vote 6 2 late_reply eighth)).0.vote_granted ≡ true)
    × ((request_vote rival (receive_vote 6 2 late_reply eighth)).1.current_term ≡ 7)
    × ((request_vote rival (receive_vote 6 2 late_reply eighth)).1.vote_for ≡ some 2)
unfolding start_election become_candidate begin_new_term flush is_up_to_date get_log_term
    get_last_log_index
late_reply_votes_twice_example =
    late_reply_votes_twice 2 late_reply asking (become_candidate 6 asking) seventh eighth (bid 6)
      (bid 7) (bid 8) rival refl refl refl refl refl refl refl

apply_committed_example :
    apply_committed asking
    ≡ some (commands (take (1 - 0) (drop 0 logged.log)), record asking { last_applied = 1 })
apply_committed_example = apply_committed_lem asking (omega arith) (omega arith)

asking-IsSound : IsSound asking
asking-IsSound = record { committed = omega arith; applied = omega arith }

abbrev heartbeat_step : Step blank asking (append_entries blank beat asking).1
heartbeat_step = Step.append_entries_step beat

Step-Rises_example : Rises asking (append_entries blank beat asking).1
Step-Rises_example = Step-Rises heartbeat_step asking-IsSound

abbrev one_step : Steps blank node (request_vote newer node).1
one_step = more (Step.request_vote_step newer) rest
