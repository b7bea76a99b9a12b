-- ===== src/Raft/Node/Log/Agreement.antt =====
-- What the merge loop does to a log without gaps: it keeps the entries that agree with the request,
-- and replaces the rest from the first conflict on.
use mathlib.Core.List.{append-nil, append_assoc}
use nebula_kv.Prelude.{
  ℕ, ◌+◌, ◌-◌, ◌≤◌, ◌<◌, ◌≡◌, refl, sym, ap, subst, ◌∙◌, Bool, true, false, ◌||◌, Option, none,
  some, List, [], ◌∷◌, ◌++◌, arith, ◌==◌, length, get_elem?, take, length-append, take-append, max,
  Bool-cases, inl, inr, if◌then◌else◌,
}
use nebula_kv.Prelude.Result.{ok}
use nebula_kv.Raft.Types.{LogEntry, Snapshot, word}
use nebula_kv.Raft.Node.Log.{
  snapshot_index, first_index, term_at, entry_term, truncate_log_from, append_entries,
}
use nebula_kv.Raft.Node.Log.Contiguous.{
  From, IsContiguous, spec_term, last_log_index-IsContiguous, first_index-IsContiguous,
  term_at-IsContiguous,
}
use nebula_kv.Raft.Node.Log.Merge.{finished, truncated, merge_loop}

From-append :
    (i : ℕ) (xs ys : List LogEntry) → From i (xs ++ ys) → From i xs × From (i + length xs) ys
From-append i [] ys f = (tt, subst (λ j. From j ys) (omega arith) f)
From-append i (x ∷ xs) ys f =
    let (p, q) = From-append (i + 1) xs ys f.2 in
    ((f.0, f.1, p), subst (λ j. From j ys) (omega arith) q)

append-From :
    (i : ℕ) (xs ys : List LogEntry) → From i xs → From (i + length xs) ys → From i (xs ++ ys)
append-From i [] ys f g = subst (λ j. From j ys) (omega arith) g
append-From i (x ∷ xs) ys f g =
    (f.0, f.1, append-From (i + 1) xs ys f.2 (subst (λ j. From j ys) (omega arith) g))

prefix-IsContiguous :
    (s : Option Snapshot) (xs ys : List LogEntry) → IsContiguous s (xs ++ ys) → IsContiguous s xs
prefix-IsContiguous s xs ys c = record {
  follows = (From-append _ xs ys c.follows).0;
  fits = omega (arith, c.fits, length-append xs ys);
}

-- Entries that follow the log without a gap are all appended.
pub append_entries-IsContiguous :
    (s : Option Snapshot) (es log : List LogEntry)
    → IsContiguous s (log ++ es)
    → append_entries s es log ≡ (ok tt, log ++ es)
unfolding append_entries
append_entries-IsContiguous s [] log c = rw append-nil
append_entries-IsContiguous s (e ∷ es) log c =
    let c' : IsContiguous s ((log ++ e ∷ []) ++ es) = rw append_assoc c in
    let f = (From-append _ log (e ∷ es) c.follows).1 in
    ground (
      arith,
      append_entries-IsContiguous s es (log ++ e ∷ []) c',
      append_assoc log (e ∷ []) es,
      last_log_index-IsContiguous s log (prefix-IsContiguous s log (e ∷ es) c),
      length-append log (e ∷ es),
      c.fits,
      f,
    )

abbrev head_term : List LogEntry → Option ℕ
head_term [] = none
head_term (e ∷ es) = some e.term

get_elem?-append :
    (xs ys : List LogEntry) → entry_term (get_elem? (xs ++ ys) (length xs)) ≡ head_term ys
get_elem?-append [] [] = refl
get_elem?-append [] (y ∷ ys) = refl
get_elem?-append (x ∷ xs) ys = get_elem?-append xs ys

-- The term behind a part of the log.
pub term_at-append :
    (s : Option Snapshot) (xs ys : List LogEntry) (i : ℕ)
    → IsContiguous s (xs ++ ys)
    → i ≡ snapshot_index s + length xs + 1
    → term_at s (xs ++ ys) i ≡ head_term ys
unfolding spec_term
term_at-append s xs ys i c e =
    let j : i - snapshot_index s - 1 ≡ length xs = omega arith in
    rw (term_at-IsContiguous s (xs ++ ys) i c, spec_term)
      (ground
        (arith, get_elem?-append xs ys, ap (λ (k : ℕ). entry_term (get_elem? (xs ++ ys) k)) j))

truncate-append :
    (s : Option Snapshot) (xs : List LogEntry) (y : LogEntry) (ys : List LogEntry) (i : ℕ)
    → IsContiguous s (xs ++ y ∷ ys)
    → i ≡ snapshot_index s + length xs + 1
    → truncate_log_from s (xs ++ y ∷ ys) i ≡ xs
unfolding truncate_log_from
truncate-append s [] y ys i c e = ground (arith, first_index-IsContiguous s (y ∷ ys) c)
truncate-append s (x ∷ xs) y ys i c e =
    let j : i - first_index s ≡ length (x ∷ xs) =
      omega (arith, first_index-IsContiguous s (x ∷ xs ++ y ∷ ys) c) in
    ground (
      arith,
      first_index-IsContiguous s (x ∷ xs ++ y ∷ ys) c,
      last_log_index-IsContiguous s (x ∷ xs ++ y ∷ ys) c,
      length-append xs (y ∷ ys),
      take-append (x ∷ xs) (y ∷ ys),
      ap (λ (k : ℕ). take k (x ∷ xs ++ y ∷ ys)) j,
    )

-- The log that a request with these entries leads to: entries with the same term stay, and at the
-- first other term, or the end of the log, the rest of the request takes over.
abbrev pub merge : List LogEntry → List LogEntry → List LogEntry
merge old [] = old
merge [] (e ∷ es) = e ∷ es
merge (o ∷ os) (e ∷ es) = if o.term == e.term then o ∷ merge os es else e ∷ es

-- Whether the request brings anything new.
abbrev pub differs : List LogEntry → List LogEntry → Bool
differs old [] = false
differs [] (e ∷ es) = true
differs (o ∷ os) (e ∷ es) = if o.term == e.term then differs os es else true

-- The entries of a request behind an index, all within 64 bits.
pub record Fits (s : Option Snapshot) (k : ℕ) (es : List LogEntry) : Type 0 where
  pub follows : From (snapshot_index s + k + 1) es
  pub bounded : snapshot_index s + k + length es + 1 < word

pub extend-IsContiguous :
    (s : Option Snapshot) (xs es : List LogEntry)
    → IsContiguous s xs
    → Fits s (length xs) es
    → IsContiguous s (xs ++ es)
extend-IsContiguous s xs es c f = record {
  follows = append-From _ xs es c.follows (subst (λ j. From j es) (omega arith) f.follows);
  fits = omega (arith, f.bounded, length-append xs es);
}

module _ (s : Option Snapshot) (prev : ℕ) where
  -- At the end of the agreeing part the rest of the request is appended.
  take_over :
      (position : ℕ) (e : LogEntry) (es log xs : List LogEntry) (changed : Bool)
      → IsContiguous s xs
      → Fits s (length xs) (e ∷ es)
      → prev + position ≡ snapshot_index s + length xs
      → truncated s e log ≡ xs
      → merge_loop s prev position (e ∷ es) changed log ≡ (ok (finished true), xs ++ e ∷ es)
  unfolding merge_loop
  take_over position e es log xs changed c f q t =
      let none_there : term_at s xs e.index ≡ none =
        rw (sym (append-nil xs)) (term_at-append s xs [] e.index (rw append-nil c) f.follows.0) in
      let done =
        append_entries-IsContiguous s (e ∷ es) xs (extend-IsContiguous s xs (e ∷ es) c f) in
      ground (arith, t, none_there, done, f.follows, f.bounded)

  -- An entry with the term of the request's is passed over.
  pass_over :
      (position : ℕ) (e : LogEntry) (es log : List LogEntry) (k : ℕ) (changed : Bool)
      → Fits s k (e ∷ es)
      → prev + position ≡ snapshot_index s + k
      → term_at s log e.index ≡ some e.term
      → merge_loop s prev position (e ∷ es) changed log
        ≡ merge_loop s prev (position + 1) es changed log
  unfolding merge_loop
  pass_over position e es log k changed f q t = ground (arith, t, f.follows, f.bounded)

  -- On a log without gaps and entries that follow its agreeing part, the loop over a request's
  -- entries keeps the entries that agree, replaces the rest from the first conflict on, and says
  -- whether anything changed.
  pub merge_loop-eq-merge :
      (position : ℕ) (es xs ys : List LogEntry) (changed : Bool)
      → IsContiguous s (xs ++ ys)
      → Fits s (length xs) es
      → prev + position ≡ snapshot_index s + length xs
      → merge_loop s prev position es changed (xs ++ ys)
        ≡ (ok (finished (changed || differs ys es)), xs ++ merge ys es)
  merge_loop-eq-merge position [] xs ys changed c f q = unfold merge_loop in ground arith
  merge_loop-eq-merge position (e ∷ es) xs [] changed c f q =
      let nothing = term_at-append s xs [] e.index c f.follows.0 in
      take_over position e es (xs ++ []) xs changed (prefix-IsContiguous s xs [] c) f q
        (ground (arith, nothing, append-nil xs))
      ∙ ground arith
  merge_loop-eq-merge position (e ∷ es) xs (o ∷ os) changed c f q =
      let there = term_at-append s xs (o ∷ os) e.index c f.follows.0 in
      elim (Bool-cases (o.term == e.term)) [
        | inl same ↦
            let c' : IsContiguous s ((xs ++ o ∷ []) ++ os) = rw append_assoc c in
            let l = length-append xs (o ∷ []) in
            let f' : Fits s (length (xs ++ o ∷ [])) es = record {
              follows = subst (λ j. From j es) (omega (arith, l)) f.follows.2;
              bounded = omega (arith, l, f.bounded);
            } in
            let ih =
              merge_loop-eq-merge (position + 1) es (xs ++ o ∷ []) os changed c' f'
                (omega (arith, l)) in
            pass_over position e es (xs ++ o ∷ os) (length xs) changed f q (ground (arith, there))
            ∙ ground
                (arith, ih, append_assoc xs (o ∷ []) os, append_assoc xs (o ∷ []) (merge os es))
        | inr other ↦
            take_over position e es (xs ++ o ∷ os) xs changed (prefix-IsContiguous s xs (o ∷ os) c)
              f q (ground (arith, there, truncate-append s xs o os e.index c f.follows.0))
            ∙ ground arith
      ]

pub length-merge : (ys es : List LogEntry) → length es ≤ length (merge ys es)
length-merge ys [] = omega arith
length-merge [] (e ∷ es) = omega arith
length-merge (o ∷ os) (e ∷ es) = ground (arith, length-merge os es)

merge-From : (i : ℕ) (ys es : List LogEntry) → From i ys → From i es → From i (merge ys es)
merge-From i ys [] f g = f
merge-From i [] (e ∷ es) f g = g
merge-From i (o ∷ os) (e ∷ es) f g = elim (Bool-cases (o.term == e.term)) [
  | inl p ↦ rw p (f.0, f.1, merge-From (i + 1) os es f.2 g.2)
  | inr p ↦ rw p g
]

length-merge-le : (ys es : List LogEntry) → length (merge ys es) ≤ max (length ys) (length es)
length-merge-le ys [] = omega arith
length-merge-le [] (e ∷ es) = omega arith
length-merge-le (o ∷ os) (e ∷ es) = ground (arith, length-merge-le os es)

-- The merged log has no gaps either.
pub merge-IsContiguous :
    (s : Option Snapshot) (xs ys es : List LogEntry)
    → IsContiguous s (xs ++ ys)
    → Fits s (length xs) es
    → IsContiguous s (xs ++ merge ys es)
merge-IsContiguous s xs ys es c f =
    let (p, q) = From-append _ xs ys c.follows in
    record {
      follows =
          append-From _ xs (merge ys es) p
            (merge-From _ ys es q (subst (λ j. From j es) (omega arith) f.follows));
      fits = omega (
        arith,
        c.fits,
        f.bounded,
        length-append xs ys,
        length-append xs (merge ys es),
        length-merge-le ys es,
      );
    }
