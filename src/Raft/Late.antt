-- ===== src/Raft/Late.antt =====
-- bitdb/raft/raft.h: a reply to a request for votes that comes in a later election.
use bitdb.Base.{ℕ, ◌+◌, ◌<◌, ◌≡◌, ap, ◌∙◌, sym, arith, true, false, some}
use bitdb.Raft.{
  Raft, RequestVoteArgs, RequestVoteReply, request_vote, cast_vote, may_vote, catch_up,
  is_up_to_date, become_follower, become_candidate, begin_new_term, flush, get_last_log_index,
  get_log_term, candidate,
}
use bitdb.Raft.Election.{start_election, receive_vote}

module _ {Command : Type 0} where
  -- What an election does to a node that starts it.
  record Elects (n m : Raft Command) (args : RequestVoteArgs) : Type 0 where
    asks : args.term ≡ n.current_term + 1
    now : m.current_term ≡ n.current_term + 1
    voted : m.vote_for ≡ some n.my_id
    same_id : m.my_id ≡ n.my_id
    runs : m.stopped ≡ n.stopped
    role : m.role ≡ candidate
    fresh : (other : RequestVoteArgs) → is_up_to_date other m ≡ is_up_to_date other n

  start_election-Elects :
      (n m : Raft Command) (args : RequestVoteArgs)
      → start_election n ≡ some (args, m)
      → Elects n m args
  unfolding start_election become_candidate begin_new_term flush is_up_to_date get_last_log_index
      get_log_term
  start_election-Elects n m args e = record {
    asks = ground (arith, e);
    now = ground (arith, e);
    voted = ground (arith, e);
    same_id = ground (arith, e);
    runs = ground (arith, e);
    role = ground (arith, e);
    fresh = λ other. ground (arith, e);
  }

  -- A candidate that hears of a later term than that of its request goes to that term, and votes in it.
  late_vote :
      (saved target : ℕ) (reply : RequestVoteReply) (m : Raft Command) (args : RequestVoteArgs)
      → m.stopped ≡ false
      → m.role ≡ candidate
      → saved < reply.term
      → args.term ≡ reply.term
      → is_up_to_date args m ≡ true
      → ((receive_vote saved target reply m).current_term ≡ reply.term)
        × ((request_vote args (receive_vote saved target reply m)).0.vote_granted ≡ true)
        × ((request_vote args (receive_vote saved target reply m)).1.current_term ≡ args.term)
        × ((request_vote args (receive_vote saved target reply m)).1.vote_for
            ≡ some args.candidate_id)
  unfolding request_vote cast_vote may_vote catch_up become_follower begin_new_term receive_vote
      flush is_up_to_date get_last_log_index get_log_term
  late_vote saved target reply m args runs role newer now fresh =
      (ground arith, ground arith, ground arith, ground arith)

  -- A node that runs holds three elections in a row, and votes for itself in each. If a node answers
  -- the first request only then, with the term of the second, the candidate goes back to that
  -- older term, and gives a second vote in it, to any candidate whose log is up to date.
  pub late_reply_votes_twice :
      (target : ℕ) (reply : RequestVoteReply) (n m1 m2 m3 : Raft Command)
      (first second third args : RequestVoteArgs)
      → n.stopped ≡ false
      → start_election n ≡ some (first, m1)
      → start_election m1 ≡ some (second, m2)
      → start_election m2 ≡ some (third, m3)
      → reply.term ≡ second.term
      → args.term ≡ second.term
      → is_up_to_date args n ≡ true
      → (m2.current_term ≡ args.term)
        × (m2.vote_for ≡ some n.my_id)
        × ((receive_vote first.term target reply m3).current_term < m3.current_term)
        × ((request_vote args (receive_vote first.term target reply m3)).0.vote_granted ≡ true)
        × ((request_vote args (receive_vote first.term target reply m3)).1.current_term ≡ args.term)
        × ((request_vote args (receive_vote first.term target reply m3)).1.vote_for
            ≡ some args.candidate_id)
  late_reply_votes_twice target reply n m1 m2 m3 first second third args runs e1 e2 e3 late asks
        fresh =
      let one = start_election-Elects n m1 first e1 in
      let two = start_election-Elects m1 m2 second e2 in
      let three = start_election-Elects m2 m3 third e3 in
      let (back, granted, now, voted) =
        late_vote first.term target reply m3 args (three.runs ∙ two.runs ∙ one.runs ∙ runs)
          three.role (omega (arith, late, one.asks, one.now, two.asks)) (asks ∙ sym late)
          (three.fresh args ∙ two.fresh args ∙ one.fresh args ∙ fresh) in
      (
        omega (arith, two.now, two.asks, asks),
        two.voted ∙ ap (λ (i : ℕ). some i) one.same_id,
        omega (arith, back, late, two.asks, two.now, three.now),
        granted,
        now,
        voted,
      )
