-- ===== src/Raft/Leading.antt =====
-- bitdb/raft/raft.h: what the replies to AppendEntries keep on a leader.
use bitdb.Base.{
  ℕ, zero, suc, ◌+◌, ◌-◌, ◌≤◌, ◌<◌, ◌≡◌, sym, arith, true, false, ◌&&◌, some, length, get_elem?,
  ltb, ◌==◌, if◌then◌else◌, Bool-cases, Option-cases, inl, inr,
}
use bitdb.Raft.{Raft, ℤ, leader, AppendEntriesReply, become_follower, is_role, term_at}
use bitdb.Raft.Leader.{
  moved, plus, pred, set_at, receive_append, advance_commit, commit_loop, is_replicated,
}
use bitdb.Raft.Soundness.{IsSound, Rises, Rises-refl, Rises-trans, become_follower-Rises}

module _ {Command : Type 0} where
  commit-Rises :
      (i : ℕ) (n : Raft Command)
      → n.commit_index ≤ i
      → i < length n.storage.log
      → IsSound n
      → Rises n (record n { commit_index = i })
  commit-Rises i n up inside sound = record {
    sound = record { committed = omega arith; applied = omega (arith, sound.applied) };
    commit = up;
    apply = omega arith;
    log = omega arith;
  }

  commit_loop-Rises :
      (left i term : ℕ) (n m : Raft Command)
      → commit_loop left i term n ≡ some m
      → n.commit_index ≤ i
      → left ≤ length n.storage.log - i
      → IsSound n
      → Rises n m
  unfolding commit_loop
  commit_loop-Rises zero i term n m e up inside sound =
      let same : n ≡ m = cc e in rw (sym same) (Rises-refl n sound)
  commit_loop-Rises (suc left) i term n m e up inside sound =
      elim (Bool-cases (term_at n.storage.log i == term)) [
        | inl now ↦ elim (Option-cases (is_replicated i n)) [
          | inl undefined ↦ absurd (ground (arith, now, undefined))
          | inr (true, majority) ↦
              let one = commit-Rises i n up (omega arith) sound in
              Rises-trans one (
                commit_loop-Rises left (i + 1) term (record n { commit_index = i }) m
                  (ground (arith, now, majority, e)) (omega arith) (omega arith) one.sound)
          | inr (false, minority) ↦
              commit_loop-Rises left (i + 1) term n m (ground (arith, now, minority, e))
                (omega arith) (omega arith) sound
        ]
        | inr other ↦
            commit_loop-Rises left (i + 1) term n m (ground (arith, other, e)) (omega arith)
              (omega arith) sound
      ]

  moved-Rises :
      (target : ℕ) (next : ℤ) (n : Raft Command) → IsSound n → Rises n (moved target next n)
  moved-Rises target next n sound = record {
    sound = record { committed = sound.committed; applied = sound.applied };
    commit = omega arith;
    apply = omega arith;
    log = omega arith;
  }

  counted-Rises :
      (sent : ℕ) (target : ℕ) (reply : AppendEntriesReply) (n m : Raft Command) (next : ℤ)
      → (if reply.success
          then advance_commit reply.term (moved target (plus next sent) n)
          else some (record n { next_index = set_at target (pred next) n.next_index }))
        ≡ some m
      → IsSound n
      → Rises n m
  unfolding advance_commit
  counted-Rises sent target reply n m next e sound = elim (Bool-cases reply.success) [
    | inl done ↦
        let one = moved-Rises target (plus next sent) n sound in
        Rises-trans one (
          commit_loop-Rises (length n.storage.log - (n.commit_index + 1)) (n.commit_index + 1)
            reply.term (moved target (plus next sent) n) m (ground (arith, done, e)) (omega arith)
            (omega arith) one.sound)
    | inr failed ↦
        let same : record n { next_index = set_at target (pred next) n.next_index } ≡ m =
          ground (arith, failed, e) in
        rw (sym same) (record {
          sound = record { committed = sound.committed; applied = sound.applied };
          commit = omega arith;
          apply = omega arith;
          log = omega arith;
        })
  ]

  pub receive_append-Rises :
      (saved target sent : ℕ) (reply : AppendEntriesReply) (n m : Raft Command)
      → receive_append saved target sent reply n ≡ some m
      → IsSound n
      → Rises n m
  unfolding receive_append
  receive_append-Rises saved target sent reply n m e sound =
      elim (Bool-cases (ltb saved reply.term)) [
        | inl newer ↦
            let down : become_follower reply.term n ≡ m = ground (arith, newer, e) in
            rw (sym down) (become_follower-Rises reply.term n sound)
        | inr older ↦ elim (Bool-cases (is_role n.role leader && reply.term == saved)) [
          | inl leading ↦ elim (Option-cases (get_elem? n.next_index target)) [
            | inl missing ↦ absurd (ground (arith, older, leading, missing, e))
            | inr (next, found) ↦
                counted-Rises sent target reply n m next (rw (older, leading, found) at e) sound
          ]
          | inr other ↦
              let kept : n ≡ m = ground (arith, older, other, e) in
              rw (sym kept) (Rises-refl n sound)
        ]
      ]
