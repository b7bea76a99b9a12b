-- ===== src/Storage/BlockCache/Puts.antt =====
-- What `put` does to a cache that is within its capacity.
use nebula_kv.Prelude.{
  ℕ, ◌-◌, ◌≤◌, ◌<◌, ◌≡◌, refl, subst, ◌∙◌, some, ◌∷◌, arith, ltb, beq_self, length, Bool-cases,
  Option-cases, inl, inr,
}
use nebula_kv.Prelude.Result.{ok}
use nebula_kv.Storage.MemTable.{word}
use nebula_kv.Storage.BlockCache.{
  DataBlock, Key, CacheNode, BlockCache, find_node, erase_node, evict_until_fits, without,
  push_front, estimate_charge, put, get, subtract,
}
use nebula_kv.Storage.BlockCache.Budget.{
  total-erase, IsValid, Evicts, evict_loop-Evicts, subtract_eq,
}

without_found :
    (key : Key) (n : CacheNode) (c : BlockCache)
    → find_node key c.lru ≡ some n
    → IsValid c
    → IsValid
        (record c { lru = erase_node key c.lru; current_bytes = subtract c.current_bytes n.charge })
without_found key n c p v =
    let t = total-erase key c.lru n p in
    let s =
      subtract_eq c.current_bytes n.charge (omega (arith, t, v.counted))
        (omega (arith, v.fits, v.capacity)) in
    record {
      counted = omega (arith, s, t, v.counted);
      fits = omega (arith, s, v.fits);
      capacity = v.capacity;
    }

without-IsValid :
    (key : Key) (c : BlockCache)
    → IsValid c
    → IsValid (without key c) × ((without key c).capacity_bytes ≡ c.capacity_bytes)
unfolding without
without-IsValid key c v = elim (Option-cases (find_node key c.lru)) [
  | inl p ↦ rw (p, without) (v, refl)
  | inr (n, p) ↦ rw (p, without) (without_found key n c p v, refl)
]

-- The block stands in front of those that stay, and is found; where it is larger than the whole cache,
-- only an older block of its key goes.
pub record Puts (key : Key) (block : DataBlock) (c c' : BlockCache) : Type 0 where
  pub kept : BlockCache
  pub capacity : c'.capacity_bytes ≡ c.capacity_bytes
  pub small :
      estimate_charge block ≤ c.capacity_bytes
      → Evicts (c.capacity_bytes - estimate_charge block) (without key c) kept
        × (c'.lru ≡ record { key = key; block = block; charge = estimate_charge block } ∷ kept.lru)
        × ((get key c').0 ≡ some block)
  pub large : c.capacity_bytes < estimate_charge block → c' ≡ without key c

get-push_front :
    (key : Key) (block : DataBlock) (charge : ℕ) (c : BlockCache)
    → (get key (push_front key block charge c)).0 ≡ some block
unfolding get find_node
get-push_front key block charge c = ground (arith, beq_self key.table_id)

push_front-IsValid :
    (key : Key) (block : DataBlock) (charge : ℕ) (c d : BlockCache)
    → charge ≤ c.capacity_bytes
    → c.capacity_bytes < word
    → Evicts (c.capacity_bytes - charge) c d
    → IsValid (push_front key block charge d)
push_front-IsValid key block charge c d h w e = record {
  counted = omega (arith, e.counted, e.fits, h, w);
  fits = omega (arith, e.fits, e.capacity, h, w);
  capacity = omega (arith, e.capacity, w);
}

-- On a cache within its capacity, putting a block throws nothing and leaves it within its
-- capacity; a block that fits stands in front and is found, and behind it stands a first part of
-- the list without the block's key, which fits, and which one more node would not; a block larger
-- than the capacity only removes an older block of its key.
pub put-Puts :
    (key : Key) (block : DataBlock) (c : BlockCache)
    → IsValid c
    → (c' : BlockCache) × (put key (some block) c ≡ ok c') × IsValid c' × Puts key block c c'
unfolding put evict_until_fits
put-Puts key block c v =
    let charge = estimate_charge block in
    let c1 = without key c in
    let (v1, k) = without-IsValid key c v in
    elim (Bool-cases (ltb c1.capacity_bytes charge)) [
      | inl p ↦ (
        c1,
        rw p refl,
        v1,
        record {
          kept = c1;
          capacity = k;
          small = λ h. absurd (ground (arith, p, k, h));
          large = λ h. refl;
        },
      )
      | inr p ↦
          let h : charge ≤ c1.capacity_bytes = ground (arith, p) in
          let e =
            evict_loop-Evicts (length c1.lru) charge c1 h v1.capacity v1.counted
              (omega (arith, v1.fits, v1.capacity)) (omega arith) in
          (
            push_front key block charge (evict_until_fits charge c1),
            rw p refl,
            push_front-IsValid key block charge c1 _ h v1.capacity e,
            record {
              kept = evict_until_fits charge c1;
              capacity = e.capacity ∙ k;
              small = λ g. (
                subst (λ j. Evicts (j - charge) c1 (evict_until_fits charge c1)) k e,
                refl,
                get-push_front key block charge _,
              );
              large = λ g. absurd (omega (arith, k, h, g));
            },
          )
    ]
