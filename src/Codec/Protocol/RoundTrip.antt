-- ===== src/Codec/Protocol/RoundTrip.antt =====
-- bitdb/raft/raft_protocol.h: which messages arrive as they were sent.
use mathlib.Core.List.{append_assoc}
use bitdb.Base.{ℕ, ◌^◌, ◌<◌, ◌≡◌, refl, some, ◌++◌, length, arith, All}
use bitdb.Codec.{Serializer, Codec, insert_end, serializer_of, str, new_serializer}
use bitdb.Codec.Laws.{
  IsLawful, arithmetic-IsLawful, bool-IsLawful, sequence-IsLawful, deserialize-str,
}
use bitdb.Codec.Protocol.{
  int32, request_vote_args, request_vote_reply, log_entry, append_entries_args,
  append_entries_reply,
}
use bitdb.Raft.{RequestVoteArgs, RequestVoteReply, LogEntry, AppendEntriesArgs, AppendEntriesReply}

abbrev pub IsI32 : ℕ → Type 0
IsI32 value = value < 2 ^ 31

int32-IsLawful : IsLawful int32 IsI32
unfolding int32
int32-IsLawful =
    let law = arithmetic-IsLawful 4 in
    record {
      bytes_of = law.bytes_of;
      writes = law.writes;
      reads = λ a old before rest fits. law.reads a old before rest (omega arith);
    }

abbrev pub IsVoteRequest : RequestVoteArgs → Type 0
IsVoteRequest a =
    IsI32 a.term × IsI32 a.candidate_id × IsI32 a.last_log_index × IsI32 a.last_log_term

request_vote_args-IsLawful : IsLawful request_vote_args IsVoteRequest
unfolding request_vote_args insert_end
request_vote_args-IsLawful =
    let i = int32-IsLawful in
    record {
      bytes_of = λ a.
          i.bytes_of a.term
          ++ (i.bytes_of a.candidate_id
              ++ (i.bytes_of a.last_log_index ++ i.bytes_of a.last_log_term));
      writes = λ a s. simp (i.writes, append_assoc) refl;
      reads = λ a old before rest (term, id, index, last).
          let t = i.bytes_of a.term in
          let c = i.bytes_of a.candidate_id in
          let x = i.bytes_of a.last_log_index in
          let l = i.bytes_of a.last_log_term in
          let split : (t ++ (c ++ (x ++ l))) ++ rest ≡ t ++ (c ++ (x ++ (l ++ rest))) =
            simp append_assoc refl in
          let whole : before ++ t ++ c ++ x ++ l ≡ before ++ (t ++ (c ++ (x ++ l))) =
            simp append_assoc refl in
          rw
            (
              split,
              i.reads a.term old.term before (c ++ (x ++ (l ++ rest))) term,
              i.reads a.candidate_id old.candidate_id (before ++ t) (x ++ (l ++ rest)) id,
              i.reads a.last_log_index old.last_log_index (before ++ t ++ c) (l ++ rest) index,
              i.reads a.last_log_term old.last_log_term (before ++ t ++ c ++ x) rest last,
              whole,
            )
            refl;
    }

request_vote_reply-IsLawful : IsLawful request_vote_reply (λ a. IsI32 a.term)
unfolding request_vote_reply insert_end
request_vote_reply-IsLawful =
    let i = int32-IsLawful in
    let b = bool-IsLawful in
    record {
      bytes_of = λ a. i.bytes_of a.term ++ b.bytes_of a.vote_granted;
      writes = λ a s. simp (i.writes, b.writes, append_assoc) refl;
      reads = λ a old before rest fits.
          let t = i.bytes_of a.term in
          let v = b.bytes_of a.vote_granted in
          rw
            (
              append_assoc t v rest,
              i.reads a.term old.term before (v ++ rest) fits,
              b.reads a.vote_granted old.vote_granted (before ++ t) rest tt,
              append_assoc before t v,
            )
            refl;
    }

module _ {Command : Type 0} (command : Codec Command) (Valid : Command → Type 0)
    (law : IsLawful command Valid) where
  abbrev pub IsSendable : LogEntry Command → Type 0
  IsSendable a = Valid a.cmd × IsI32 a.term

  log_entry-IsLawful : IsLawful (log_entry command) IsSendable
  unfolding log_entry insert_end
  log_entry-IsLawful =
      let i = int32-IsLawful in
      record {
        bytes_of = λ a. law.bytes_of a.cmd ++ i.bytes_of a.term;
        writes = λ a s. simp (i.writes, law.writes, append_assoc) refl;
        reads = λ a old before rest (valid, fits).
            let c = law.bytes_of a.cmd in
            let t = i.bytes_of a.term in
            rw
              (
                append_assoc c t rest,
                law.reads a.cmd old.cmd before (t ++ rest) valid,
                i.reads a.term old.term (before ++ c) rest fits,
                append_assoc before c t,
              )
              refl;
      }

  abbrev pub IsAppend : AppendEntriesArgs Command → Type 0
  IsAppend a =
      IsI32 a.term
      × IsI32 a.leader_id
      × IsI32 a.prev_log_index
      × IsI32 a.prev_log_term
      × ((length a.entries < 2 ^ 32) × All IsSendable a.entries)
      × IsI32 a.leader_commit

  append_entries_args-IsLawful :
      (blank : LogEntry Command) → IsLawful (append_entries_args blank command) IsAppend
  unfolding append_entries_args insert_end
  append_entries_args-IsLawful blank =
      let i = int32-IsLawful in
      let q = sequence-IsLawful (log_entry command) IsSendable log_entry-IsLawful blank in
      record {
        bytes_of = λ a.
            i.bytes_of a.term
            ++ (i.bytes_of a.leader_id
                ++ (i.bytes_of a.prev_log_index
                    ++ (i.bytes_of a.prev_log_term
                        ++ (q.bytes_of a.entries ++ i.bytes_of a.leader_commit))));
        writes = λ a s. simp (i.writes, q.writes, append_assoc) refl;
        reads = λ a old before rest (term, id, index, prev, entries, commit).
            let t = i.bytes_of a.term in
            let l = i.bytes_of a.leader_id in
            let x = i.bytes_of a.prev_log_index in
            let p = i.bytes_of a.prev_log_term in
            let e = q.bytes_of a.entries in
            let c = i.bytes_of a.leader_commit in
            let split : (t ++ (l ++ (x ++ (p ++ (e ++ c))))) ++ rest
                ≡ t ++ (l ++ (x ++ (p ++ (e ++ (c ++ rest))))) =
              simp append_assoc refl in
            let whole : before ++ t ++ l ++ x ++ p ++ e ++ c
                ≡ before ++ (t ++ (l ++ (x ++ (p ++ (e ++ c))))) =
              simp append_assoc refl in
            rw
              (
                split,
                i.reads a.term old.term before (l ++ (x ++ (p ++ (e ++ (c ++ rest))))) term,
                i.reads a.leader_id old.leader_id (before ++ t) (x ++ (p ++ (e ++ (c ++ rest)))) id,
                i.reads a.prev_log_index old.prev_log_index (before ++ t ++ l)
                    (p ++ (e ++ (c ++ rest))) index,
                i.reads a.prev_log_term old.prev_log_term (before ++ t ++ l ++ x) (e ++ (c ++ rest))
                    prev,
                q.reads a.entries old.entries (before ++ t ++ l ++ x ++ p) (c ++ rest) entries,
                i.reads a.leader_commit old.leader_commit (before ++ t ++ l ++ x ++ p ++ e) rest
                    commit,
                whole,
              )
              refl;
      }

  -- With a codec of the commands that reads back what it has written: the arguments of AppendEntries
  -- with numbers below 2 ^ 31, fewer than 2 ^ 32 entries and valid commands arrive as they were sent,
  -- whatever the object that receives them was before.
  pub append_entries_args_arrive :
      (blank : LogEntry Command) (a old : AppendEntriesArgs Command)
      → IsAppend a
      → (s : Serializer) × ((append_entries_args blank command).deserialize old
            (serializer_of (str ((append_entries_args blank command).serialize a new_serializer)))
          ≡ some (a, s))
  append_entries_args_arrive blank a old valid =
      deserialize-str (append_entries_args blank command) IsAppend
        (append_entries_args-IsLawful blank) a old valid

-- The arguments and the reply of RequestVote arrive as they were sent where their numbers are below
-- 2 ^ 31, whatever the objects that receive them were before.
pub request_vote_arrives :
    (a old_a : RequestVoteArgs) (r old_r : RequestVoteReply)
    → IsVoteRequest a
    → IsI32 r.term
    → ((s : Serializer) × (request_vote_args.deserialize old_a
            (serializer_of (str (request_vote_args.serialize a new_serializer)))
          ≡ some (a, s)))
      × ((s : Serializer) × (request_vote_reply.deserialize old_r
              (serializer_of (str (request_vote_reply.serialize r new_serializer)))
            ≡ some (r, s)))
request_vote_arrives a old_a r old_r valid_a valid_r = (
  deserialize-str request_vote_args IsVoteRequest request_vote_args-IsLawful a old_a valid_a,
  deserialize-str request_vote_reply (λ a. IsI32 a.term) request_vote_reply-IsLawful r old_r
      valid_r,
)

-- The reply of AppendEntries never arrives: whatever is sent, the bytes are those of any other reply,
-- and the object that receives it stays what it was.
pub append_entries_reply_lost :
    (sent other old : AppendEntriesReply)
    → (append_entries_reply.serialize sent new_serializer
        ≡ append_entries_reply.serialize other new_serializer)
      × ((s : Serializer) × (append_entries_reply.deserialize old
              (serializer_of (str (append_entries_reply.serialize sent new_serializer)))
            ≡ some (old, s)))
unfolding append_entries_reply
append_entries_reply_lost sent other old =
    (refl, (serializer_of (str (append_entries_reply.serialize sent new_serializer)), refl))
