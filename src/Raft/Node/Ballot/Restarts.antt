-- ===== src/Raft/Node/Ballot/Restarts.antt =====
-- A node that crashes and is built again from its disk, any number of times.
use nebula_kv.Prelude.{◌+◌, ◌<◌, ◌≡◌, sym, subst, ◌∙◌, ap, ◌≢◌, inr, true, List, [], ◌∷◌, arith}
use nebula_kv.Prelude.Result.{Result, ok, ◌>>=◌, bind_returns}
use nebula_kv.Raft.Types.{RaftNodeOptions, PersistentState, RequestVoteRequest, StateMachine, word}
use nebula_kv.Raft.Node.State.{Node, current_term, voted_for}
use nebula_kv.Raft.Node.Recover.{make_node}
use nebula_kv.Raft.Node.Vote.{handle_request_vote}
use nebula_kv.Raft.Node.Run.{Event, step}
use nebula_kv.Raft.Node.Ballot.Rules.{Remembers, Advances, Advances-refl, Advances-trans}
use nebula_kv.Raft.Node.Ballot.Campaign.{step-Advances}
use nebula_kv.Raft.Node.Ballot.Once.{handle_request_vote-Granted}

module _ (S : Type 0) where
  -- What can happen in the life of a node: a step, or a crash and the constructor on what the disk has,
  -- with the machine as it then is.
  pub data Moment : Type 0 where
    happens : Event → Moment
    restarts : RaftNodeOptions → S → Moment

module _ {S : Type 0} (M : StateMachine S) where
  unfoldable pub live : List (Moment S) → Node S → Result (Node S)
  live [] n = ok n
  live (happens e ∷ ms) n = live ms (step M e n)
  live (restarts o m ∷ ms) n = do n' ← make_node M o n.disk m; live ms n'

  -- No term is the largest 64-bit number.
  unfoldable pub LifeFits : List (Moment S) → Node S → Type 0
  LifeFits [] n = Unit
  LifeFits (happens e ∷ ms) n = (current_term n + 1 < word) × LifeFits ms (step M e n)
  LifeFits (restarts o m ∷ ms) n = (n' : Node S) → make_node M o n.disk m ≡ ok n' → LifeFits ms n'

  -- A node that is built from a disk has the term and the vote of the disk.
  pub make_node-Remembers :
      (o : RaftNodeOptions) (p : PersistentState) (m : S) (n : Node S)
      → make_node M o p m ≡ ok n
      → Remembers n
        × (current_term n ≡ p.hard_state.current_term)
        × (voted_for n ≡ p.hard_state.voted_for)
  unfolding make_node
  make_node-Remembers o p m n h = ground arith

  restart-Advances :
      (o : RaftNodeOptions) (m : S) (n n' : Node S)
      → Remembers n
      → make_node M o n.disk m ≡ ok n'
      → Advances n n'
  restart-Advances o m n n' r h =
      let (k, t, v) = make_node-Remembers o n.disk m n' h in
      record { holds = inr (sym r.term ∙ sym t, inr (v ∙ r.vote)); remembers = λ _. k }

  pub live-Advances :
      (ms : List (Moment S)) (n n' : Node S)
      → Remembers n
      → LifeFits ms n
      → live ms n ≡ ok n'
      → Advances n n'
  unfolding live LifeFits
  live-Advances [] n n' r f h = subst (Advances n) (ground (arith, h)) (Advances-refl n)
  live-Advances (happens e ∷ ms) n n' r f h =
      let a = step-Advances M e n f.0 in
      Advances-trans n (step M e n) n' a (live-Advances ms (step M e n) n' (a.remembers r) f.1 h)
  live-Advances (restarts o m ∷ ms) n n' r f h =
      let (n1, p, q) = bind_returns (make_node M o n.disk m) (live ms) n' h in
      let a = restart-Advances o m n n1 r p in
      Advances-trans n n1 n' a (live-Advances ms n1 n' (a.remembers r) (f n1 p) q)

  -- Two votes that a node grants in one term go to one candidate, whatever steps and restarts from
  -- disk lie in between, provided the first candidate has a name and no term reaches the largest
  -- 64-bit number.
  pub one_vote_across_restarts :
      (r1 r2 : RequestVoteRequest) (n n2 : Node S) (ms : List (Moment S))
      → let n1 = (handle_request_vote r1 n).1 in
        r1.candidate_id ≢ []
        → LifeFits ms n1
        → live ms n1 ≡ ok n2
        → (handle_request_vote r1 n).0.vote_granted ≡ true
        → (handle_request_vote r2 n2).0.vote_granted ≡ true
        → r1.term ≡ r2.term
        → r1.candidate_id ≡ r2.candidate_id
  one_vote_across_restarts r1 r2 n n2 ms named fit h g1 g2 same =
      let n1 = (handle_request_vote r1 n).1 in
      let a = handle_request_vote-Granted r1 n g1 in
      let b = handle_request_vote-Granted r2 n2 g2 in
      let k : Remembers n1 = record {
        term = ap (λ x. x.current_term) a.disk;
        vote = ap (λ x. x.voted_for) a.disk;
      } in
      let p = live-Advances ms n1 n2 k fit h in ground (arith, p.holds, a.term, a.vote, b.free)
