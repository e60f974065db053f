-- ===== src/Raft/Terms.antt =====
-- bitdb/raft/raft.h: what every step of a node keeps, whatever the other nodes send.
use bitdb.Base.{ℕ, ◌-◌, ◌≤◌, ◌≡◌, arith, some, List, length}
use bitdb.Raft.{
  Raft, LogEntry, Storage, RequestVoteArgs, RequestVoteReply, AppendEntriesArgs, AppendEntriesReply,
  request_vote, new_raft,
}
use bitdb.Raft.Entries.{append_entries, new_command, apply_committed}
use bitdb.Raft.Election.{start_election, receive_vote}
use bitdb.Raft.Leader.{receive_append}
use bitdb.Raft.Applying.{apply_committed_lem}
use bitdb.Raft.Soundness.{
  IsSound, Rises, Rises-refl, Rises-trans, request_vote-Rises, new_command-Rises,
  start_election-Rises, receive_vote-Rises,
}
use bitdb.Raft.Following.{append_entries-Rises}
use bitdb.Raft.Leading.{receive_append-Rises}

module _ {Command : Type 0} where
  apply-Rises :
      (n m : Raft Command) (cmds : List Command)
      → apply_committed n ≡ some (cmds, m)
      → IsSound n
      → Rises n m
  apply-Rises n m cmds e sound =
      let run = apply_committed_lem n sound.applied (omega (arith, sound.committed)) in
      let same : m ≡ record n { last_applied = n.commit_index } = cc (e, run) in
      rw same (record {
        sound = record { committed = sound.committed; applied = omega arith };
        commit = omega arith;
        apply = sound.applied;
        log = omega arith;
      })

  -- A step of a node: a call that reaches it, a reply that comes at any time to a message of any
  -- term, a timeout, or a round of a thread.
  pub data Step (blank : LogEntry Command) : Raft Command → Raft Command → Type 0 where
    request_vote_step :
        {n : Raft Command} (args : RequestVoteArgs) → Step blank n (request_vote args n).1
    append_entries_step :
        {n : Raft Command} (args : AppendEntriesArgs Command)
        → Step blank n (append_entries blank args n).1
    new_command_step : {n : Raft Command} (cmd : Command) → Step blank n (new_command cmd n).1
    receive_vote_step :
        {n : Raft Command} (saved_current_term target : ℕ) (reply : RequestVoteReply)
        → Step blank n (receive_vote saved_current_term target reply n)
    receive_append_step :
        {n m : Raft Command} (saved_current_term target sent : ℕ) (reply : AppendEntriesReply)
        → receive_append saved_current_term target sent reply n ≡ some m
        → Step blank n m
    start_election_step :
        {n m : Raft Command} (args : RequestVoteArgs)
        → start_election n ≡ some (args, m)
        → Step blank n m
    apply_step :
        {n m : Raft Command} (cmds : List Command)
        → apply_committed n ≡ some (cmds, m)
        → Step blank n m

  -- On a node that has its commit index inside its log and has applied no more than is committed:
  -- whatever reaches it, late replies included, its commit index, the number of entries it has
  -- applied and the length of its log never go down, and both conditions stay.
  pub Step-Rises :
      {blank : LogEntry Command} {n m : Raft Command} → Step blank n m → IsSound n → Rises n m
  Step-Rises {n = n} (Step.request_vote_step args) sound = request_vote-Rises args n sound
  Step-Rises {blank = blank} {n = n} (Step.append_entries_step args) sound =
      append_entries-Rises blank args n sound
  Step-Rises {n = n} (Step.new_command_step cmd) sound = new_command-Rises cmd n sound
  Step-Rises {n = n} (Step.receive_vote_step saved target reply) sound =
      receive_vote-Rises saved target reply n sound
  Step-Rises {n = n} {m = m} (Step.receive_append_step saved target sent reply e) sound =
      receive_append-Rises saved target sent reply n m e sound
  Step-Rises {n = n} {m = m} (Step.start_election_step args e) sound =
      start_election-Rises args n m e sound
  Step-Rises {n = n} {m = m} (Step.apply_step cmds e) sound = apply-Rises n m cmds e sound

  -- Any number of steps.
  pub data Steps (blank : LogEntry Command) : Raft Command → Raft Command → Type 0 where
    rest : {n : Raft Command} → Steps blank n n
    more : {n m k : Raft Command} → Step blank n m → Steps blank m k → Steps blank n k

  Steps-Rises :
      {blank : LogEntry Command} {n m : Raft Command} → Steps blank n m → IsSound n → Rises n m
  Steps-Rises {n = n} rest sound = Rises-refl n sound
  Steps-Rises (more first later) sound =
      let one = Step-Rises first sound in Rises-trans one (Steps-Rises later one.sound)

  -- A node that is made on any storage, after any steps, has its commit index inside its log and has
  -- applied no entry that is not committed, and its log is at least as long as the storage's.
  pub Steps-new_raft :
      (blank : LogEntry Command) (my_id num_nodes : ℕ) (storage : Storage Command)
      (m : Raft Command)
      → Steps blank (new_raft my_id num_nodes storage) m
      → (m.commit_index ≤ length m.storage.log - 1)
        × (m.last_applied ≤ m.commit_index)
        × (length storage.log ≤ length m.storage.log)
  unfolding new_raft
  Steps-new_raft blank my_id num_nodes storage m steps =
      let rises = Steps-Rises steps (record { committed = omega arith; applied = omega arith }) in
      (rises.sound.committed, rises.sound.applied, rises.log)
