-- ===== src/Storage/BlockCache/Budget.antt =====
-- The cache keeps within its capacity, and evicts the least recently used blocks, as few as it can.
use mathlib.Core.List.{append_assoc, append-nil}
use nebula_kv.Prelude.{
  ℕ, zero, suc, ◌+◌, ◌-◌, ◌%◌, ◌≤◌, ◌<◌, ◌≡◌, refl, sym, ◌∙◌, ap, none, some, List, [], ◌∷◌, ◌++◌,
  arith, ltb, length, length-append, Bool-cases, Option-cases, inl, inr,
}
use nebula_kv.Storage.MemTable.{word}
use nebula_kv.Storage.BlockCache.{
  Key, CacheNode, BlockCache, find_node, erase_node, last_node, drop_last, subtract, evict_loop,
}

abbrev pub total : List CacheNode → ℕ
total [] = 0
total (n ∷ ns) = n.charge + total ns

pub record IsValid (c : BlockCache) : Type 0 where
  pub counted : c.current_bytes ≡ total c.lru
  pub fits : c.current_bytes ≤ c.capacity_bytes
  pub capacity : c.capacity_bytes < word

pub total-erase :
    (key : Key) (ns : List CacheNode) (n : CacheNode)
    → find_node key ns ≡ some n
    → total (erase_node key ns) + n.charge ≡ total ns
unfolding find_node erase_node
total-erase key [] n h = absurd (cc h)
total-erase key (m ∷ ns) n h = ground (arith, total-erase key ns n)

-- The node before the end is split off the list.
last_split :
    (ns : List CacheNode) (n : CacheNode) → last_node ns ≡ some n → ns ≡ drop_last ns ++ n ∷ []
last_split [] n h = absurd (cc h)
last_split (m ∷ []) n h = ground (arith, h)
last_split (m ∷ k ∷ ns) n h = ap (◌∷◌ m) (last_split (k ∷ ns) n h)

last_none : (ns : List CacheNode) → last_node ns ≡ none → ns ≡ []
last_none [] h = refl
last_none (m ∷ []) h = absurd (cc h)
last_none (m ∷ k ∷ ns) h = absurd (cc (last_none (k ∷ ns) h))

total-append : (xs ys : List CacheNode) → total (xs ++ ys) ≡ total xs + total ys
total-append [] ys = omega arith
total-append (x ∷ xs) ys = omega (arith, total-append xs ys)

-- The first of the evicted nodes, which was the last to go, did not fit with those that stay.
abbrev pub Needed : ℕ → ℕ → List CacheNode → Type 0
Needed limit kept [] = Unit
Needed limit kept (n ∷ ns) = limit < kept + n.charge

-- `c'` has a first part of the list of `c`, within the limit, and one more node would not fit.
pub record Evicts (limit : ℕ) (c c' : BlockCache) : Type 0 where
  pub evicted : List CacheNode
  pub split : c.lru ≡ c'.lru ++ evicted
  pub counted : c'.current_bytes ≡ total c'.lru
  pub fits : c'.current_bytes ≤ limit
  pub needed : Needed limit (total c'.lru) evicted
  pub capacity : c'.capacity_bytes ≡ c.capacity_bytes

Needed-more :
    (limit : ℕ) (kept init evicted : List CacheNode) (n : CacheNode)
    → init ≡ kept ++ evicted
    → limit < total init + n.charge
    → Needed limit (total kept) evicted
    → Needed limit (total kept) (evicted ++ n ∷ [])
Needed-more limit kept init [] n e h w = omega (arith, ap total e, total-append kept [], h)
Needed-more limit kept init (m ∷ ms) n e h w = w

stop-Evicts :
    (limit : ℕ) (c : BlockCache)
    → c.current_bytes ≡ total c.lru
    → c.current_bytes ≤ limit
    → Evicts limit c c
stop-Evicts limit c h f = record {
  evicted = [];
  split = sym (append-nil c.lru);
  counted = h;
  fits = f;
  needed = tt;
  capacity = refl;
}

total_empty : (ns : List CacheNode) → length ns ≤ 0 → total ns ≡ 0
total_empty [] h = refl
total_empty (n ∷ ns) h = absurd (omega (arith, h))

pub subtract_eq : (a b : ℕ) → b ≤ a → a < word → subtract a b ≡ a - b
subtract_eq a b h w = omega (arith, h, w)

-- The cache after one round.
abbrev shrunk : CacheNode → BlockCache → BlockCache
shrunk n c = record c {
  lru = drop_last c.lru;
  current_bytes = subtract c.current_bytes n.charge;
  evictions = (c.evictions + 1) % word;
}

shrunk-Evicts :
    (limit : ℕ) (n : CacheNode) (c c' : BlockCache)
    → last_node c.lru ≡ some n
    → c.current_bytes ≡ total c.lru
    → limit < c.current_bytes
    → Evicts limit (shrunk n c) c'
    → Evicts limit c c'
shrunk-Evicts limit n c c' p h q e =
    let s = last_split c.lru n p in
    let t = total-append (drop_last c.lru) (n ∷ []) in
    record {
      evicted = e.evicted ++ n ∷ [];
      split = s ∙ ap (λ ns. ns ++ n ∷ []) e.split ∙ append_assoc c'.lru e.evicted (n ∷ []);
      counted = e.counted;
      fits = e.fits;
      needed =
          Needed-more limit c'.lru (drop_last c.lru) e.evicted n e.split
            (omega (arith, ap total s, t, h, q)) e.needed;
      capacity = e.capacity;
    }

pub evict_loop-Evicts :
    (fuel charge : ℕ) (c : BlockCache)
    → charge ≤ c.capacity_bytes
    → c.capacity_bytes < word
    → c.current_bytes ≡ total c.lru
    → c.current_bytes < word
    → length c.lru ≤ fuel
    → Evicts (c.capacity_bytes - charge) c (evict_loop fuel charge c)
unfolding evict_loop
evict_loop-Evicts zero charge c h1 h2 h3 h4 h5 =
    stop-Evicts _ c h3 (omega (arith, h3, total_empty c.lru h5))
evict_loop-Evicts (suc fuel) charge c h1 h2 h3 h4 h5 = elim (Option-cases (last_node c.lru)) [
  | inl p ↦
      rw (p, evict_loop) (stop-Evicts _ c h3 (omega (arith, h3, ap total (last_none c.lru p))))
  | inr (n, p) ↦ elim (Bool-cases (ltb (subtract c.capacity_bytes charge) c.current_bytes)) [
    | inl q ↦
        let s = last_split c.lru n p in
        let t = total-append (drop_last c.lru) (n ∷ []) in
        let l = length-append (drop_last c.lru) (n ∷ []) in
        let e =
          evict_loop-Evicts fuel charge (shrunk n c) h1 h2 (omega (arith, ap total s, t, h3, h4))
            (omega (arith, h4)) (omega (arith, ap (length) s, l, h5)) in
        rw (p, q, evict_loop)
          (shrunk-Evicts _ n c _ p h3 (ground (arith, subtract_eq c.capacity_bytes charge h1 h2)) e)
    | inr q ↦
        rw (p, q, evict_loop)
          (stop-Evicts _ c h3 (ground (arith, subtract_eq c.capacity_bytes charge h1 h2)))
  ]
]
