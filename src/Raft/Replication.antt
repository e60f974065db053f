-- ===== src/Raft/Replication.antt =====
-- bitdb/raft/raft.h: where AppendEntries puts the entries of a leader.
use bitdb.Base.{ℕ, suc, ◌+◌, ◌≡◌, refl, arith, true, false, List, [], ◌∷◌, length}
use bitdb.Raft.{
  Raft, follower, LogEntry, AppendEntriesArgs, catch_up, add_log_at, overwrite, grow,
  get_last_log_index, get_log_term,
}
use bitdb.Raft.Entries.{
  append_entries, receive_entries, take_entries, insert_entries, matching, is_log_index_matched,
  set_commit_index,
}

module _ {Command : Type 0} where
  overwrite-grow :
      (blank : LogEntry Command) (entries : List (LogEntry Command))
      → overwrite 0 entries (grow blank (length entries) []) ≡ entries
  unfolding overwrite grow
  overwrite-grow blank [] = refl
  overwrite-grow blank (e ∷ entries) = ground (arith, overwrite-grow blank entries)

  insert_into_empty :
      (blank x : LogEntry Command) (entries : List (LogEntry Command))
      (args : AppendEntriesArgs Command) (n : Raft Command)
      → args.prev_log_index ≡ 0
      → args.entries ≡ x ∷ entries
      → n.storage.log ≡ []
      → (insert_entries blank args n).storage.log ≡ blank ∷ x ∷ entries
  unfolding insert_entries add_log_at matching overwrite grow
  insert_into_empty blank x entries args n first given fresh =
      let size : 1 + suc (length entries) ≡ suc (suc (length entries)) = omega arith in
      rw (first, given, fresh, size) (ground (arith, overwrite-grow blank entries))

  set_commit_index_storage :
      (commit : ℕ) (n : Raft Command) → (set_commit_index commit n).storage ≡ n.storage
  unfolding set_commit_index
  set_commit_index_storage commit n = ground arith

  catch_up_now : (term : ℕ) (n : Raft Command) → n.current_term ≡ term → catch_up term n ≡ n
  unfolding catch_up
  catch_up_now term n same = ground (arith, same)

  matched_at_start : (n : Raft Command) → is_log_index_matched 0 0 n ≡ true
  unfolding is_log_index_matched get_last_log_index get_log_term
  matched_at_start n = ground arith

  -- A running follower with an empty log that takes the first entries of a leader in its own term
  -- puts a blank entry before them, so that its log is not the leader's.
  pub first_entries_shifted :
      (blank x : LogEntry Command) (entries : List (LogEntry Command)) (term leader_id commit : ℕ)
      (n : Raft Command)
      → n.stopped ≡ false
      → n.role ≡ follower
      → n.current_term ≡ term
      → n.storage.log ≡ []
      → ((append_entries blank
            (record {
              term = term;
              leader_id = leader_id;
              prev_log_index = 0;
              prev_log_term = 0;
              entries = x ∷ entries;
              leader_commit = commit;
            })
            n).1.storage.log
          ≡ blank ∷ x ∷ entries)
  unfolding append_entries receive_entries take_entries is_log_index_matched get_last_log_index
      get_log_term set_commit_index
  first_entries_shifted blank x entries term leader_id commit n running role same fresh =
      let args : AppendEntriesArgs Command = record {
        term = term;
        leader_id = leader_id;
        prev_log_index = 0;
        prev_log_term = 0;
        entries = x ∷ entries;
        leader_commit = commit;
      } in
      rw (catch_up_now term n same, role, matched_at_start n)
        (ground (
          arith,
          running,
          same,
          set_commit_index_storage commit (insert_entries blank args n),
          insert_into_empty blank x entries args n refl refl fresh,
        ))
