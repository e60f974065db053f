-- ===== src/Raft/Applying.antt =====
-- bitdb/raft/raft.h: RunBackgroundApply.
use bitdb.Base.{
  ℕ, zero, suc, ◌+◌, ◌-◌, ◌≤◌, ◌<◌, ◌≡◌, refl, ◌∙◌, arith, some, List, [], ◌∷◌, length, take, drop,
  get_elem?,
}
use bitdb.Raft.{Raft, LogEntry}
use bitdb.Raft.Entries.{apply_committed, apply_loop}

module _ {Command : Type 0} where
  abbrev pub commands : List (LogEntry Command) → List Command
  commands [] = []
  commands (e ∷ log) = e.cmd ∷ commands log

  entry_at :
      (i : ℕ) (log : List (LogEntry Command))
      → i < length log
      → (e : LogEntry Command) × (get_elem? log i ≡ some e) × (drop i log ≡ e ∷ drop (suc i) log)
  entry_at i [] h = absurd (omega arith)
  entry_at zero (e ∷ log) h = (e, refl, refl)
  entry_at (suc i) (e ∷ log) h = entry_at i log (omega arith)

  apply_loop_step :
      (todo : ℕ) (n m : Raft Command) (e : LogEntry Command) (cmds : List Command)
      → get_elem? n.storage.log n.last_applied ≡ some e
      → apply_loop todo (record n { last_applied = n.last_applied + 1 }) ≡ some (cmds, m)
      → apply_loop (suc todo) n ≡ some (e.cmd ∷ cmds, m)
  unfolding apply_loop
  apply_loop_step todo n m e cmds found rest = ground (arith, found, rest)

  apply_loop_lem :
      (todo : ℕ) (n : Raft Command)
      → n.last_applied + todo ≤ length n.storage.log
      → apply_loop todo n
        ≡ some (
          commands (take todo (drop n.last_applied n.storage.log)),
          record n { last_applied = n.last_applied + todo },
        )
  unfolding apply_loop
  apply_loop_lem zero n h =
      let same : n.last_applied + 0 ≡ n.last_applied = omega arith in rw same refl
  apply_loop_lem (suc todo) n h =
      let (e, found, split) = entry_at n.last_applied n.storage.log (omega arith) in
      let total : n.last_applied + 1 + todo ≡ n.last_applied + suc todo = omega arith in
      let next : n.last_applied + 1 ≡ suc n.last_applied = omega arith in
      let n1 = record n { last_applied = n.last_applied + 1 } in
      let rest = apply_loop_step todo n _ e _ found (apply_loop_lem todo n1 (omega arith)) in
      rest ∙ rw (total, split, next) refl

  -- If the node has applied no more than is committed, and no more is committed than its log has,
  -- the state machine gets the commands of the committed entries that it has not had yet, each
  -- once and in the order of the log, and none of the later ones.
  pub apply_committed_lem :
      (n : Raft Command)
      → n.last_applied ≤ n.commit_index
      → n.commit_index ≤ length n.storage.log
      → apply_committed n
        ≡ some (
          commands (take (n.commit_index - n.last_applied) (drop n.last_applied n.storage.log)),
          record n { last_applied = n.commit_index },
        )
  unfolding apply_committed
  apply_committed_lem n behind inside =
      let total : n.last_applied + (n.commit_index - n.last_applied) ≡ n.commit_index =
        omega arith in
      let run = apply_loop_lem (n.commit_index - n.last_applied) n (omega arith) in
      run ∙ rw total refl
