-- ===== src/Codec/Protocol.antt =====
-- bitdb/raft/raft_protocol.h: the messages of the consensus protocol as bytes. An `int32_t` of a
-- message is never negative.
pub mod RoundTrip
use bitdb.Base.{ℕ, false, Option, some, List, [], ◌>>=◌}
use bitdb.Codec.{Serializer, Codec, arithmetic, bool, sequence}
use bitdb.Raft.{RequestVoteArgs, RequestVoteReply, LogEntry, AppendEntriesArgs, AppendEntriesReply}

unfoldable pub int32 : Codec ℕ
unfolding arithmetic
int32 = arithmetic 4

unfoldable pub request_vote_args : Codec RequestVoteArgs
request_vote_args = record {
  serialize = λ a s. int32.serialize a.last_log_term (
      int32.serialize a.last_log_index (int32.serialize a.candidate_id (int32.serialize a.term s)));
  deserialize = λ old s. (do
    (term, s) ← int32.deserialize old.term s
    (candidate_id, s) ← int32.deserialize old.candidate_id s
    (last_log_index, s) ← int32.deserialize old.last_log_index s
    (last_log_term, s) ← int32.deserialize old.last_log_term s
    some (
      record {
        term = term;
        candidate_id = candidate_id;
        last_log_index = last_log_index;
        last_log_term = last_log_term;
      },
      s,
    ));
}

unfoldable pub request_vote_reply : Codec RequestVoteReply
request_vote_reply = record {
  serialize = λ a s. bool.serialize a.vote_granted (int32.serialize a.term s);
  deserialize = λ old s. (do
    (term, s) ← int32.deserialize old.term s
    (vote_granted, s) ← bool.deserialize old.vote_granted s
    some (record { term = term; vote_granted = vote_granted }, s));
}

-- Nothing is written, and nothing is read.
unfoldable pub append_entries_reply : Codec AppendEntriesReply
append_entries_reply = record { serialize = λ a s. s; deserialize = λ old s. some (old, s) }

module _ {Command : Type 0} where
  unfoldable pub log_entry : Codec Command → Codec (LogEntry Command)
  log_entry command = record {
    serialize = λ a s. int32.serialize a.term (command.serialize a.cmd s);
    deserialize = λ old s. (do
      (cmd, s) ← command.deserialize old.cmd s
      (term, s) ← int32.deserialize old.term s
      some (record { cmd = cmd; term = term }, s));
  }

  -- `blank` is the entry that the default constructor makes.
  unfoldable pub append_entries_args :
      LogEntry Command → Codec Command → Codec (AppendEntriesArgs Command)
  append_entries_args blank command = record {
    serialize = λ a s. int32.serialize a.leader_commit (
        (sequence blank (log_entry command)).serialize a.entries (
          int32.serialize a.prev_log_term (
            int32.serialize a.prev_log_index
              (int32.serialize a.leader_id (int32.serialize a.term s)))));
    deserialize = λ old s. (do
      (term, s) ← int32.deserialize old.term s
      (leader_id, s) ← int32.deserialize old.leader_id s
      (prev_log_index, s) ← int32.deserialize old.prev_log_index s
      (prev_log_term, s) ← int32.deserialize old.prev_log_term s
      (entries, s) ← (sequence blank (log_entry command)).deserialize old.entries s
      (leader_commit, s) ← int32.deserialize old.leader_commit s
      some (
        record {
          term = term;
          leader_id = leader_id;
          prev_log_index = prev_log_index;
          prev_log_term = prev_log_term;
          entries = entries;
          leader_commit = leader_commit;
        },
        s,
      ));
  }
