-- ===== src/Raft/Node/Commit/Quorum.antt =====
-- Which index `advance_commit_locked` commits: the largest one that a quorum has stored.
use nebula_kv.Prelude.{
  ℕ, zero, suc, ◌+◌, ◌-◌, ◌≤◌, ◌<◌, ◌≡◌, refl, ap, true, Option, none, some, List, [], ◌∷◌, arith,
  leb, length, get_elem?, if◌then◌else◌, Bool-cases, inl, inr,
}
use nebula_kv.Raft.Types.{Peer}
use nebula_kv.Prelude.OrderedMap.{OrderedMap}
use nebula_kv.Raft.Node.State.{Node, term_at, quorum_size}
use nebula_kv.Raft.Node.Commit.{
  sort, sort_insert, matches, replicated, commit_candidate, term_is, advance_commit, advance_to,
}

-- How many of the servers have stored the index.
abbrev pub stored_by : ℕ → List ℕ → ℕ
stored_by c [] = 0
stored_by c (x ∷ xs) = if leb c x then suc (stored_by c xs) else stored_by c xs

Below : ℕ → List ℕ → Type 0
Below x [] = Unit
Below x (y ∷ ys) = (x ≤ y) × Below x ys

Sorted : List ℕ → Type 0
Sorted [] = Unit
Sorted (x ∷ xs) = Below x xs × Sorted xs

stored_by-insert : (c x : ℕ) (xs : List ℕ) → stored_by c (sort_insert x xs) ≡ stored_by c (x ∷ xs)
unfolding sort_insert
stored_by-insert c x [] = refl
stored_by-insert c x (y ∷ ys) = ground (arith, stored_by-insert c x ys)

stored_by-sort : (c : ℕ) (xs : List ℕ) → stored_by c (sort xs) ≡ stored_by c xs
unfolding sort
stored_by-sort c [] = refl
stored_by-sort c (x ∷ xs) = ground (arith, stored_by-insert c x (sort xs), stored_by-sort c xs)

length-insert : (x : ℕ) (xs : List ℕ) → length (sort_insert x xs) ≡ suc (length xs)
unfolding sort_insert
length-insert x [] = refl
length-insert x (y ∷ ys) = ground (arith, length-insert x ys)

length-sort : (xs : List ℕ) → length (sort xs) ≡ length xs
unfolding sort
length-sort [] = refl
length-sort (x ∷ xs) = omega (arith, length-insert x (sort xs), length-sort xs)

Below-trans : (x y : ℕ) (ys : List ℕ) → x ≤ y → Below y ys → Below x ys
unfolding Below
Below-trans x y [] h b = tt
Below-trans x y (z ∷ zs) h b = (omega (arith, b.0), Below-trans x y zs h b.1)

Below-insert : (x y : ℕ) (ys : List ℕ) → x ≤ y → Below x ys → Below x (sort_insert y ys)
unfolding Below sort_insert
Below-insert x y [] h b = (h, tt)
Below-insert x y (z ∷ zs) h b = ground (arith, Below-insert x y zs h)

insert-Sorted : (x : ℕ) (xs : List ℕ) → Sorted xs → Sorted (sort_insert x xs)
unfolding Sorted sort_insert Below
insert-Sorted x [] s = (tt, tt)
insert-Sorted x (y ∷ ys) s = elim (Bool-cases (leb x y)) [
  | inl p ↦ rw p ((ground arith, Below-trans x y ys (ground arith) s.0), s)
  | inr p ↦ rw p (Below-insert y x ys (ground arith) s.0, insert-Sorted x ys s.1)
]

sort-Sorted : (xs : List ℕ) → Sorted (sort xs)
unfolding sort Sorted
sort-Sorted [] = tt
sort-Sorted (x ∷ xs) = insert-Sorted x (sort xs) (sort-Sorted xs)

stored_by-Below : (c x : ℕ) (xs : List ℕ) → c ≤ x → Below x xs → stored_by c xs ≡ length xs
unfolding Below
stored_by-Below c x [] h b = refl
stored_by-Below c x (y ∷ ys) h b = ground (arith, stored_by-Below c x ys h)

stored_by-length : (c : ℕ) (xs : List ℕ) → stored_by c xs ≤ length xs
stored_by-length c [] = omega arith
stored_by-length c (x ∷ xs) = ground (arith, stored_by-length c xs)

-- The element at a position of a sorted list is at most all those from there on.
stored_from :
    (c i : ℕ) (xs : List ℕ) → Sorted xs → get_elem? xs i ≡ some c → length xs ≤ stored_by c xs + i
unfolding Sorted
stored_from c i [] s h = absurd (cc)
stored_from c zero (x ∷ xs) s h = ground (arith, stored_by-Below c x xs)
stored_from c (suc i) (x ∷ xs) s h = ground (arith, stored_from c i xs s.1 h)

get_elem?-Below : (c x i : ℕ) (xs : List ℕ) → Below x xs → get_elem? xs i ≡ some c → x ≤ c
unfolding Below
get_elem?-Below c x i [] b h = absurd (cc)
get_elem?-Below c x zero (y ∷ ys) b h = ground arith
get_elem?-Below c x (suc i) (y ∷ ys) b h = get_elem?-Below c x i ys b.1 h

-- Only those behind the position can be larger.
stored_above :
    (c d i : ℕ) (xs : List ℕ)
    → Sorted xs
    → get_elem? xs i ≡ some c
    → c < d
    → stored_by d xs + i < length xs
unfolding Sorted
stored_above c d i [] s h l = absurd (cc)
stored_above c d zero (x ∷ xs) s h l = ground (arith, stored_by-length d xs)
stored_above c d (suc i) (x ∷ xs) s h l =
    ground (arith, stored_above c d i xs s.1 h l, get_elem?-Below c x i xs)

length-matches : (m : OrderedMap ℕ) (ps : List Peer) → length (matches m ps) ≡ length ps
length-matches m [] = refl
length-matches m (p ∷ ps) = ap suc (length-matches m ps)

-- The commit index of `n'` is above that of `n`, of the current term, stored by a quorum, and the
-- largest index that a quorum has stored.
pub record Commits {S : Type 0} (n n' : Node S) : Type 0 where
  pub above : n.hard_state.commit_index < n'.hard_state.commit_index
  pub term : term_at n n'.hard_state.commit_index ≡ some n.hard_state.current_term
  pub quorum : quorum_size n ≤ stored_by n'.hard_state.commit_index (replicated n)
  pub largest :
      (d : ℕ) → quorum_size n ≤ stored_by d (replicated n) → d ≤ n'.hard_state.commit_index

module _ {S : Type 0} where
  quorum_size-le-length : (n : Node S) → quorum_size n ≤ length (replicated n)
  unfolding quorum_size replicated
  quorum_size-le-length n = omega (arith, length-matches n.match_index n.options.peers)

  commit_candidate_quorum :
      (n : Node S) (c : ℕ)
      → commit_candidate n ≡ some c
      → quorum_size n ≤ stored_by c (replicated n)
  unfolding commit_candidate
  commit_candidate_quorum n c h =
      let xs = replicated n in
      let i = length xs - quorum_size n in
      omega (
        arith,
        quorum_size-le-length n,
        stored_from c i (sort xs) (sort-Sorted xs) h,
        stored_by-sort c xs,
        length-sort xs,
      )

  commit_candidate_largest :
      (n : Node S) (c d : ℕ)
      → commit_candidate n ≡ some c
      → quorum_size n ≤ stored_by d (replicated n)
      → d ≤ c
  unfolding commit_candidate
  commit_candidate_largest n c d h q =
      let xs = replicated n in
      let i = length xs - quorum_size n in
      ground (
        arith,
        quorum_size-le-length n,
        stored_above c d i (sort xs) (sort-Sorted xs) h,
        stored_by-sort d xs,
        length-sort xs,
      )

  advance_to-Commits :
      (n : Node S) (o : Option ℕ)
      → commit_candidate n ≡ o
      → (advance_to o n).0 ≡ true
      → Commits n (advance_to o n).1
  unfolding advance_to
  advance_to-Commits n none p h = absurd (cc)
  advance_to-Commits n (some c) p h = elim (Bool-cases (leb c n.hard_state.commit_index)) [
    | inl q ↦ absurd (ground arith)
    | inr q ↦ elim (Bool-cases (term_is (term_at n c) n.hard_state.current_term)) [
      | inl r ↦
          rw (q, r)
            (record {
              above = ground arith;
              term = ground arith;
              quorum = commit_candidate_quorum n c p;
              largest = λ d. commit_candidate_largest n c d p;
            })
      | inr r ↦ absurd (ground arith)
    ]
  ]

  -- Where advance_commit moves the commit index, it moves it up to the largest index that a quorum
  -- has stored, whose entry is of the current term.
  pub advance_commit-Commits :
      (n : Node S) → (advance_commit n).0 ≡ true → Commits n (advance_commit n).1
  unfolding advance_commit
  advance_commit-Commits n h = advance_to-Commits n (commit_candidate n) refl h
