-- ===== src/Raft/Leader.antt =====
-- bitdb/raft/raft.h: what a leader sends to the other nodes, and what it makes of their replies.
use bitdb.Base.{
  ℕ, zero, suc, ◌+◌, ◌-◌, ◌*◌, Bool, true, false, ◌&&◌, Option, none, some, List, [], ◌∷◌, length,
  drop, get_elem?, ltb, leb, ◌==◌, if◌then◌else◌, ◌>>=◌,
}
use bitdb.Raft.{
  Raft, ℤ, pos, negsuc, leader, AppendEntriesArgs, AppendEntriesReply, get_last_log_index,
  get_log_term, become_follower, is_role, term_at,
}
use bitdb.Raft.Election.{or_zero}

abbrev pub pred : ℤ → ℤ
pred (pos zero) = negsuc 0
pred (pos (suc n)) = pos n
pred (negsuc n) = negsuc (suc n)

abbrev pub plus : ℤ → ℕ → ℤ
plus (pos a) n = pos (a + n)
plus (negsuc a) n = if ltb a n then pos (n - suc a) else negsuc (a - n)

-- `i <= z` for a natural number
abbrev pub reaches : ℤ → ℕ → Bool
reaches (pos a) i = leb i a
reaches (negsuc a) i = false

-- The element of a vector of indices; behind the end there is none.
abbrev pub set_at : ℕ → ℤ → List ℤ → List ℤ
set_at i z [] = []
set_at zero z (x ∷ xs) = z ∷ xs
set_at (suc i) z (x ∷ xs) = x ∷ set_at i z xs

-- `!(last < next)`
abbrev pub reaches_down : ℤ → ℕ → Bool
reaches_down (pos a) last = leb a last
reaches_down (negsuc a) last = true

-- How many of the nodes that voted for the leader have the entry `i`.
unfoldable pub count_matches : List ℕ → List ℤ → ℕ → Option ℕ
count_matches [] match_index i = some 0
count_matches (id ∷ ids) match_index i = do
  rest ← count_matches ids match_index i
  m ← get_elem? match_index id
  some (if reaches m i then suc rest else rest)

module _ {Command : Type 0} where
  -- The arguments for an other node, from its next index; below zero the code reads before the log.
  unfoldable pub args_from : ℤ → Raft Command → Option (AppendEntriesArgs Command)
  args_from next n = elim (pred next) [
    | negsuc below ↦ none
    | pos prev ↦ some (record {
      term = n.current_term;
      leader_id = n.my_id;
      prev_log_index = prev;
      prev_log_term = or_zero (get_log_term n prev);
      entries = drop prev n.storage.log;
      leader_commit = n.commit_index;
    })
  ]

  -- The body of the loop of RunBackgroundCommit for the node `i`: nothing is sent to the node itself,
  -- nor to one that is up to date. The result is what is sent.
  unfoldable pub entries_for : ℕ → Raft Command → Option (Option (AppendEntriesArgs Command))
  entries_for i n = if i == n.my_id then some none else (do
    next ← get_elem? n.next_index i
    if reaches_down next (get_last_log_index n)
        then (do args ← args_from next n; some (some args))
        else some none)

  -- `match_count * 2 > num_nodes() + 1`, where the leader counts too
  unfoldable pub is_replicated : ℕ → Raft Command → Option Bool
  is_replicated i n = do
    others ← count_matches n.follower_id_set n.match_index i
    some (ltb (n.num_nodes + 1) ((others + 1) * 2))

  -- The loop over the entries from `i` on, on the number of entries that are left.
  unfoldable pub commit_loop : ℕ → ℕ → ℕ → Raft Command → Option (Raft Command)
  commit_loop zero i term n = some n
  commit_loop (suc left) i term n =
      if term_at n.storage.log i == term
      then (do
        replicated ← is_replicated i n
        commit_loop left (i + 1) term (if replicated then record n { commit_index = i } else n))
      else commit_loop left (i + 1) term n

  unfoldable pub advance_commit : ℕ → Raft Command → Option (Raft Command)
  advance_commit term n =
      commit_loop (length n.storage.log - (n.commit_index + 1)) (n.commit_index + 1) term n

  abbrev pub moved : ℕ → ℤ → Raft Command → Raft Command
  moved target next n = record n {
    next_index = set_at target next n.next_index;
    match_index = set_at target (pred next) n.match_index;
  }

  -- SendAppendEntries behind the reply of the node `target` to `sent` entries
  unfoldable pub receive_append :
      ℕ → ℕ → ℕ → AppendEntriesReply → Raft Command → Option (Raft Command)
  receive_append saved_current_term target sent reply n =
      if ltb saved_current_term reply.term
      then some (become_follower reply.term n)
      else if is_role n.role leader && reply.term == saved_current_term
      then (do
        next ← get_elem? n.next_index target
        if reply.success
            then advance_commit reply.term (moved target (plus next sent) n)
            else some (record n { next_index = set_at target (pred next) n.next_index }))
      else some n
