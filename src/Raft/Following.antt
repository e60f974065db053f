-- ===== src/Raft/Following.antt =====
-- bitdb/raft/raft.h: what AppendEntries keeps on a follower.
use bitdb.Base.{
  ℕ, zero, suc, ◌+◌, ◌≤◌, ◌≡◌, refl, arith, ◌||◌, List, [], ◌∷◌, length, drop, ltb, ◌==◌,
  Bool-cases, inl, inr,
}
use bitdb.Raft.{
  Raft, follower, LogEntry, Storage, AppendEntriesArgs, catch_up, become_follower, begin_new_term,
  is_role, grow, overwrite, add_log_at,
}
use bitdb.Raft.Entries.{
  step_down, append_entries, receive_entries, take_entries, insert_entries, set_commit_index,
  is_log_index_matched, matching,
}
use bitdb.Raft.Soundness.{IsSound, Rises, Rises-refl, Rises-trans, become_follower-Rises}

module _ {Command : Type 0} where
  length-grow :
      (blank : LogEntry Command) (n : ℕ) (log : List (LogEntry Command))
      → (n ≤ length (grow blank n log)) × (length log ≤ length (grow blank n log))
  unfolding grow
  length-grow blank zero log = (omega arith, omega arith)
  length-grow blank (suc n) [] = let h = length-grow blank n [] in (omega (arith, h.0), omega arith)
  length-grow blank (suc n) (e ∷ log) =
      let h = length-grow blank n log in (omega (arith, h.0), omega (arith, h.1))

  length-overwrite :
      (i : ℕ) (entries log : List (LogEntry Command))
      → length (overwrite i entries log) ≡ length log
  unfolding overwrite
  length-overwrite zero entries [] = refl
  length-overwrite (suc i) entries [] = refl
  length-overwrite zero [] (e ∷ log) = refl
  length-overwrite zero (x ∷ entries) (e ∷ log) = omega (arith, length-overwrite zero entries log)
  length-overwrite (suc i) entries (e ∷ log) = omega (arith, length-overwrite i entries log)

  -- AddLog never makes the log shorter.
  length-add_log_at :
      (blank : LogEntry Command) (i : ℕ) (entries : List (LogEntry Command)) (s : Storage Command)
      → length s.log ≤ length (add_log_at blank i entries s).log
  unfolding add_log_at
  length-add_log_at blank i entries s =
      rw (length-overwrite i entries (grow blank (i + length entries) s.log))
        ((length-grow blank (i + length entries) s.log).1)

  insert_entries-Rises :
      (blank : LogEntry Command) (args : AppendEntriesArgs Command) (n : Raft Command)
      → IsSound n
      → Rises n (insert_entries blank args n)
  unfolding insert_entries
  insert_entries-Rises blank args n sound =
      let start = args.prev_log_index + 1 in
      let k = matching (drop start n.storage.log) args.entries in
      let longer = length-add_log_at blank (start + k) (drop k args.entries) n.storage in
      record {
        sound = record {
          committed = ground (arith, sound.committed, longer);
          applied = ground (arith, sound.applied);
        };
        commit = ground arith;
        apply = ground arith;
        log = ground (arith, longer);
      }

  set_commit_index-Rises :
      (leader_commit : ℕ) (n : Raft Command)
      → IsSound n
      → Rises n (set_commit_index leader_commit n)
  unfolding set_commit_index
  set_commit_index-Rises leader_commit n sound = record {
    sound = record {
      committed = ground (arith, sound.committed);
      applied = ground (arith, sound.applied, sound.committed);
    };
    commit = ground (arith, sound.committed);
    apply = ground arith;
    log = ground arith;
  }

  -- Behind the change of the term the node is not ahead of a message that it was not ahead of.
  catch_up-Rises :
      (term : ℕ) (n : Raft Command)
      → IsSound n
      → Rises n (catch_up term n) × (n.current_term ≤ term → (catch_up term n).current_term ≤ term)
  unfolding catch_up
  catch_up-Rises term n sound = elim (Bool-cases (ltb n.current_term term)) [
    | inl newer ↦ rw newer (
      become_follower-Rises term n sound,
      λ up. unfold become_follower begin_new_term in omega arith,
    )
    | inr older ↦ rw older (Rises-refl n sound, λ up. up)
  ]

  step_down-Rises :
      (term : ℕ) (n : Raft Command) → n.current_term ≤ term → IsSound n → Rises n (step_down term n)
  step_down-Rises term n up sound = elim (Bool-cases (is_role n.role follower)) [
    | inl holds ↦ rw holds (Rises-refl n sound)
    | inr fails ↦ rw fails (become_follower-Rises term n sound)
  ]

  take_entries-Rises :
      (blank : LogEntry Command) (args : AppendEntriesArgs Command) (n : Raft Command)
      → IsSound n
      → Rises n (take_entries blank args n).1
  unfolding take_entries
  take_entries-Rises blank args n sound =
      let inserted = insert_entries-Rises blank args n sound in
      elim (Bool-cases (is_log_index_matched args.prev_log_index args.prev_log_term n)) [
        | inl holds ↦ rw holds (
            Rises-trans inserted (
              set_commit_index-Rises args.leader_commit (insert_entries blank args n)
                inserted.sound))
        | inr fails ↦ rw fails (Rises-refl n sound)
      ]

  receive_entries-Rises :
      (blank : LogEntry Command) (args : AppendEntriesArgs Command) (n : Raft Command)
      (entries : List (LogEntry Command))
      → args.entries ≡ entries
      → n.current_term ≤ args.term
      → IsSound n
      → Rises n (receive_entries blank args n).1
  unfolding receive_entries
  receive_entries-Rises blank args n [] e up sound = rw e (step_down-Rises args.term n up sound)
  receive_entries-Rises blank args n (x ∷ entries) e up sound =
      let down = step_down-Rises args.term n up sound in
      rw e (elim (Bool-cases (args.term == n.current_term)) [
        | inl holds ↦ rw holds (
            Rises-trans down (
              take_entries-Rises blank (record args { entries = x ∷ entries })
                (step_down args.term n) down.sound))
        | inr fails ↦ rw fails (Rises-refl n sound)
      ])

  pub append_entries-Rises :
      (blank : LogEntry Command) (args : AppendEntriesArgs Command) (n : Raft Command)
      → IsSound n
      → Rises n (append_entries blank args n).1
  unfolding append_entries
  append_entries-Rises blank args n sound =
      elim (Bool-cases (ltb args.term n.current_term || n.stopped)) [
        | inl holds ↦ rw holds (Rises-refl n sound)
        | inr fails ↦
            let (up, reached) = catch_up-Rises args.term n sound in
            rw fails (
              Rises-trans up (
                receive_entries-Rises blank args (catch_up args.term n) args.entries refl
                  (reached (ground (arith, fails))) up.sound))
      ]
