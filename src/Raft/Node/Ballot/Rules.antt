-- ===== src/Raft/Node/Ballot/Rules.antt =====
-- How terms and votes may change: the relation, and a rule for each way to build an operation.
use nebula_kv.Prelude.{
  ℕ, ◌<◌, ◌≡◌, refl, sym, ◌∙◌, ap, ◌⊎◌, inr, Bool, true, false, [], arith, if◌then◌else◌,
}
use nebula_kv.Prelude.Exec.{resume}
use nebula_kv.Prelude.Result.{Result, ok, throw}
use nebula_kv.Raft.Types.{StateMachine, NodeId}
use nebula_kv.Raft.Node.State.{Node, current_term, voted_for, become_follower, persist_hard_state}
use nebula_kv.Raft.Node.Commit.{apply_committed}
use nebula_kv.Raft.Node.Commit.Frame.{SameRole, apply_committed-SameRole}

-- What the disk has for the term and the vote is what the node has.
pub record Remembers {S : Type 0} (n : Node S) : Type 0 where
  pub term : n.disk.hard_state.current_term ≡ current_term n
  pub vote : n.disk.hard_state.voted_for ≡ voted_for n

-- From `m` to `n` the term rose, or it stayed and with it the vote that had been
-- cast; and if the disk had both before, it has them after.
pub record Advances {S : Type 0} (m n : Node S) : Type 0 where
  pub holds :
      (current_term m < current_term n)
      ⊎ ((current_term m ≡ current_term n) × ((voted_for m ≡ []) ⊎ (voted_for n ≡ voted_for m)))
  pub remembers : Remembers m → Remembers n

module _ {S : Type 0} where
  pub Advances-refl : (n : Node S) → Advances n n
  Advances-refl n = record { holds = inr (refl, inr refl); remembers = λ r. r }

  -- Changes elsewhere in the node are no business of the ballot.
  pub unchanged :
      (m n : Node S)
      → current_term m ≡ current_term n
      → voted_for n ≡ voted_for m
      → n.disk.hard_state ≡ m.disk.hard_state
      → Advances m n
  unchanged m n t v d = record {
    holds = inr (t, inr v);
    remembers = λ r. record {
      term = ap (λ h. h.current_term) d ∙ r.term ∙ t;
      vote = ap (λ h. h.voted_for) d ∙ r.vote ∙ sym v;
    };
  }

  -- Nor are they where the hard state goes to disk.
  pub written :
      (m n : Node S)
      → current_term m ≡ current_term n
      → voted_for n ≡ voted_for m
      → n.disk.hard_state ≡ n.hard_state
      → Advances m n
  written m n t v d = record {
    holds = inr (t, inr v);
    remembers = λ r. record { term = ap (λ h. h.current_term) d; vote = ap (λ h. h.voted_for) d };
  }

  pub Advances-trans : (a b c : Node S) → Advances a b → Advances b c → Advances a c
  Advances-trans a b c p q = record {
    holds = ground arith;
    remembers = λ r. q.remembers (p.remembers r);
  }

  pub SameRole-Advances : (m n : Node S) → SameRole m n → Advances m n
  SameRole-Advances m n s = record {
    holds = ground arith;
    remembers = λ r. record {
      term = ap (λ h. h.current_term) s.disk ∙ r.term ∙ sym s.term;
      vote = ap (λ h. h.voted_for) s.disk ∙ r.vote ∙ sym s.vote;
    };
  }

  pub become_follower-Advances :
      (t : ℕ) (id : NodeId) (n : Node S) → Advances n (become_follower t id n)
  unfolding become_follower
  become_follower-Advances t id n = ground arith

  pub if_Advances :
      (m : Node S) (b : Bool) (x y : Node S)
      → Advances m x
      → Advances m y
      → Advances m (if b then x else y)
  if_Advances m true x y p q = p
  if_Advances m false x y p q = q

  pub if_rule :
      {A : Type 0} (m : Node S) (b : Bool) (x y : A × Node S)
      → Advances m x.1
      → Advances m y.1
      → Advances m (if b then x else y).1
  if_rule m true x y p q = p
  if_rule m false x y p q = q

  pub resume-Advances :
      {A B : Type 0} (n : Node S) (f : A → Node S → Result B × Node S) (x : Result A × Node S)
      → Advances n x.1
      → ((a : A) (m : Node S) → Advances m (f a m).1)
      → Advances n (resume f x).1
  resume-Advances n f (ok a, m) p k = Advances-trans n m _ p (k a m)
  resume-Advances n f (throw e, m) p k = p

  -- The writes to disk that close an operation.
  pub then_persist :
      {A : Type 0} (n : Node S) (a : A) (x : Result (Unit {0}) × Node S)
      → Advances n x.1
      → Advances n (resume (λ _ n'. (ok a, persist_hard_state n')) x).1
  then_persist n a x p = resume-Advances n _ x p (λ _ m. written m _ refl refl refl)

module _ {S : Type 0} (M : StateMachine S) where
  pub apply_committed-Advances : (n : Node S) → Advances n (apply_committed M n).1
  apply_committed-Advances n = SameRole-Advances n _ (apply_committed-SameRole M n)

  pub then_apply :
      (n n' : Node S)
      → current_term n ≡ current_term n'
      → voted_for n' ≡ voted_for n
      → n'.disk.hard_state ≡ n.disk.hard_state
      → Advances n (apply_committed M n').1
  then_apply n n' t v k = Advances-trans n n' _ (unchanged n n' t v k) (apply_committed-Advances n')
