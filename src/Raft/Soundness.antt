-- ===== src/Raft/Soundness.antt =====
-- bitdb/raft/raft.h: what only goes up on a node, and the steps of elections and of clients.
use bitdb.Base.{ℕ, ◌-◌, ◌≤◌, ◌≡◌, arith, some, [], ◌∷◌, length, length-append}
use bitdb.Raft.{
  Raft, RequestVoteArgs, RequestVoteReply, request_vote, cast_vote, catch_up, become_follower,
  become_candidate, become_leader, begin_new_term, flush, add_log,
}
use bitdb.Raft.Entries.{new_command}
use bitdb.Raft.Election.{start_election, receive_vote, count_vote}

module _ {Command : Type 0} where
  -- The commit index names an entry of the log, and the state machine is not ahead of it.
  pub record IsSound (n : Raft Command) : Type 0 where
    pub committed : n.commit_index ≤ length n.storage.log - 1
    pub applied : n.last_applied ≤ n.commit_index

  -- What only goes up.
  pub record Rises (n m : Raft Command) : Type 0 where
    pub sound : IsSound m
    pub commit : n.commit_index ≤ m.commit_index
    pub apply : n.last_applied ≤ m.last_applied
    pub log : length n.storage.log ≤ length m.storage.log

  pub Rises-refl : (n : Raft Command) → IsSound n → Rises n n
  Rises-refl n sound = record {
    sound = sound;
    commit = omega arith;
    apply = omega arith;
    log = omega arith;
  }

  pub Rises-trans : {a b c : Raft Command} → Rises a b → Rises b c → Rises a c
  Rises-trans p q = record {
    sound = q.sound;
    commit = omega (arith, p.commit, q.commit);
    apply = omega (arith, p.apply, q.apply);
    log = omega (arith, p.log, q.log);
  }

  pub become_follower-Rises :
      (term : ℕ) (n : Raft Command) → IsSound n → Rises n (become_follower term n)
  unfolding become_follower begin_new_term flush
  become_follower-Rises term n sound = record {
    sound = record { committed = sound.committed; applied = sound.applied };
    commit = omega arith;
    apply = omega arith;
    log = omega arith;
  }

  pub request_vote-Rises :
      (args : RequestVoteArgs) (n : Raft Command) → IsSound n → Rises n (request_vote args n).1
  unfolding request_vote cast_vote catch_up become_follower begin_new_term flush
  request_vote-Rises args n sound = record {
    sound = record {
      committed = ground (arith, sound.committed);
      applied = ground (arith, sound.applied);
    };
    commit = ground arith;
    apply = ground arith;
    log = ground arith;
  }

  pub new_command-Rises :
      (cmd : Command) (n : Raft Command) → IsSound n → Rises n (new_command cmd n).1
  unfolding new_command flush add_log
  new_command-Rises cmd n sound = record {
    sound = record {
      committed = ground (
        arith,
        sound.committed,
        length-append n.storage.log (record { cmd = cmd; term = n.current_term } ∷ []),
      );
      applied = ground (arith, sound.applied);
    };
    commit = ground arith;
    apply = ground arith;
    log =
        ground
          (arith, length-append n.storage.log (record { cmd = cmd; term = n.current_term } ∷ []));
  }

  pub start_election-Rises :
      (args : RequestVoteArgs) (n m : Raft Command)
      → start_election n ≡ some (args, m)
      → IsSound n
      → Rises n m
  unfolding start_election become_candidate begin_new_term flush
  start_election-Rises args n m e sound = record {
    sound = record {
      committed = ground (arith, sound.committed);
      applied = ground (arith, sound.applied);
    };
    commit = ground arith;
    apply = ground arith;
    log = ground arith;
  }

  pub receive_vote-Rises :
      (saved target : ℕ) (reply : RequestVoteReply) (n : Raft Command)
      → IsSound n
      → Rises n (receive_vote saved target reply n)
  unfolding receive_vote count_vote become_leader become_follower begin_new_term flush
  receive_vote-Rises saved target reply n sound = record {
    sound = record {
      committed = ground (arith, sound.committed);
      applied = ground (arith, sound.applied);
    };
    commit = ground arith;
    apply = ground arith;
    log = ground arith;
  }
