-- ===== src/Raft/Election.antt =====
-- bitdb/raft/raft.h: StartElection and the replies that SendRequestVote waits for.
use bitdb.Base.{ℕ, ◌+◌, ◌/◌, ◌^◌, Bool, ◌&&◌, Option, none, some, length, ltb, ◌==◌, if◌then◌else◌}
use bitdb.Raft.{
  Raft, candidate, RequestVoteArgs, RequestVoteReply, get_last_log_index, get_log_term,
  become_follower, become_candidate, become_leader, is_role, emplace_id,
}

abbrev pub or_zero : Option ℕ → ℕ
or_zero none = 0
or_zero (some t) = t

module _ {Command : Type 0} where
  -- Raft::StartElection: the arguments that go to every other node. Terms are `int32_t`.
  unfoldable pub start_election : Raft Command → Option (RequestVoteArgs × Raft Command)
  start_election n =
      let m = become_candidate (n.current_term + 1) n in
      let last = get_last_log_index m in
      if ltb (n.current_term + 1) (2 ^ 31)
      then some (
        record {
          term = n.current_term + 1;
          candidate_id = n.my_id;
          last_log_index = last;
          last_log_term = or_zero (get_log_term m last);
        },
        m,
      )
      else none

  -- `follower_id_set_.size() + 1 > std::ceil(num_nodes() / 2)`, a quotient of two `int`
  unfoldable pub has_majority : Raft Command → Bool
  has_majority n = ltb (n.num_nodes / 2) (length n.follower_id_set + 1)

  unfoldable pub count_vote : ℕ → Bool → Raft Command → Raft Command
  count_vote target granted n =
      let m =
        if granted then record n { follower_id_set = emplace_id n.follower_id_set target } else n in
      if has_majority m then become_leader m else m

  -- SendRequestVote behind the reply of the node `target`
  unfoldable pub receive_vote : ℕ → ℕ → RequestVoteReply → Raft Command → Raft Command
  receive_vote saved_current_term target reply n =
      if is_role n.role candidate
      then if ltb saved_current_term reply.term
        then become_follower reply.term n
        else count_vote target (reply.term == saved_current_term && reply.vote_granted) n
      else n
