-- ===== src/Raft/Entries.antt =====
-- bitdb/raft/raft.h: AppendEntries, NewCommand and RunBackgroundApply, which move the log, the
-- commit index and the state machine.
use bitdb.Base.{
  ℕ, zero, suc, ◌+◌, ◌-◌, Bool, true, false, ◌||◌, not, Option, none, some, List, [], ◌∷◌, length,
  drop, get_elem?, ltb, ◌==◌, if◌then◌else◌,
}
use bitdb.Raft.{
  Raft, follower, leader, LogEntry, AppendEntriesArgs, AppendEntriesReply, flush, add_log,
  add_log_at, get_last_log_index, get_log_term, become_follower, catch_up, is_role,
}

abbrev is_term : Option ℕ → ℕ → Bool
is_term none t = false
is_term (some s) t = t == s

abbrev least : ℕ → ℕ → ℕ
least a b = if ltb b a then b else a

module _ {Command : Type 0} where
  -- The lambda `is_log_index_matched`
  unfoldable pub is_log_index_matched : ℕ → ℕ → Raft Command → Bool
  is_log_index_matched prev_log_index prev_log_term n =
      if ltb (get_last_log_index n) prev_log_index
      then false
      else is_term (get_log_term n prev_log_index) prev_log_term

  -- How far the loop goes over the log from the insertion point on and over the new entries.
  unfoldable pub matching : List (LogEntry Command) → List (LogEntry Command) → ℕ
  matching [] entries = 0
  matching (e ∷ log) [] = 0
  matching (e ∷ log) (x ∷ entries) =
      let rest = matching log entries in if e.term == x.term then suc rest else 0

  -- `log_insert_index` starts at `prev_log_index + 1`.
  unfoldable pub insert_entries :
      LogEntry Command → AppendEntriesArgs Command → Raft Command → Raft Command
  insert_entries blank args n =
      let start = args.prev_log_index + 1 in
      let matched = matching (drop start n.storage.log) args.entries in
      if ltb matched (length args.entries)
      then record n {
        storage = add_log_at blank (start + matched) (drop matched args.entries) n.storage;
      }
      else n

  -- `if (args.leader_commit > commit_index_)`; the log has an entry there.
  unfoldable pub set_commit_index : ℕ → Raft Command → Raft Command
  set_commit_index leader_commit n =
      if ltb n.commit_index leader_commit
      then record n { commit_index = least leader_commit (length n.storage.log - 1) }
      else n

  abbrev pub step_down : ℕ → Raft Command → Raft Command
  step_down term n = if is_role n.role follower then n else become_follower term n

  -- The part of AppendEntries for entries of the current term
  unfoldable pub take_entries :
      LogEntry Command
      → AppendEntriesArgs Command
      → Raft Command
      → AppendEntriesReply × Raft Command
  take_entries blank args n =
      if is_log_index_matched args.prev_log_index args.prev_log_term n
      then (
        record { term = n.current_term; success = true },
        set_commit_index args.leader_commit (insert_entries blank args n),
      )
      else (record { term = n.current_term; success = false }, n)

  -- AppendEntries behind the change of the term; a heartbeat has no entries.
  unfoldable pub receive_entries :
      LogEntry Command
      → AppendEntriesArgs Command
      → Raft Command
      → AppendEntriesReply × Raft Command
  receive_entries blank args n = elim args.entries [
    | [] ↦ (record { term = 0; success = false }, step_down args.term n)
    | x ∷ entries ↦
        if args.term == n.current_term
        then take_entries blank args (step_down args.term n)
        else (record { term = n.current_term; success = false }, n)
  ]

  -- Raft::AppendEntries
  unfoldable pub append_entries :
      LogEntry Command
      → AppendEntriesArgs Command
      → Raft Command
      → AppendEntriesReply × Raft Command
  append_entries blank args n =
      if ltb args.term n.current_term || n.stopped
      then (record { term = n.current_term; success = false }, n)
      else receive_entries blank args (catch_up args.term n)

  -- Raft::NewCommand: the term and the index that a leader returns
  unfoldable pub new_command : Command → Raft Command → Option (ℕ × ℕ) × Raft Command
  new_command cmd n = if n.stopped || not (is_role n.role leader) then (none, n) else (
    some (n.current_term, get_last_log_index n),
    record n { storage = flush (add_log (record { cmd = cmd; term = n.current_term }) n.storage) },
  )

  -- The loop of RunBackgroundApply, on the number of entries that are committed and not applied; the
  -- result is the commands in the order of ApplyLog.
  unfoldable pub apply_loop : ℕ → Raft Command → Option (List Command × Raft Command)
  apply_loop zero n = some ([], n)
  apply_loop (suc todo) n = elim (get_elem? n.storage.log n.last_applied) [
    | none ↦ none
    | some entry ↦ elim (apply_loop todo (record n { last_applied = n.last_applied + 1 })) [
      | none ↦ none
      | some (cmds, done) ↦ some (entry.cmd ∷ cmds, done)
    ]
  ]

  unfoldable pub apply_committed : Raft Command → Option (List Command × Raft Command)
  apply_committed n = apply_loop (n.commit_index - n.last_applied) n

  -- Raft::IsLeader, with the term
  unfoldable pub is_leader : Raft Command → Bool × ℕ
  is_leader n = (is_role n.role leader, n.current_term)
