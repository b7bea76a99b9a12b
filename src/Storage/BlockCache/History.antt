-- ===== src/Storage/BlockCache/History.antt =====
-- Any history of calls on a cache.
use nebula_kv.Prelude.{
  ◌≡◌, refl, ◌∙◌, ap, Option, none, some, List, [], ◌∷◌, arith, Option-cases, inl, inr,
}
use nebula_kv.Prelude.Result.{Result, ok, throw, Exception, invalid_argument}
use nebula_kv.Storage.BlockCache
use nebula_kv.Storage.BlockCache.{DataBlock, Key, BlockCache, find_node}
use nebula_kv.Storage.BlockCache.Budget.{IsValid, total-erase}
use nebula_kv.Storage.BlockCache.Puts.{put-Puts}

pub data Call : Type 0 where
  get : Key → Call
  put : Key → Option DataBlock → Call
  clear reset_statistics : Call

unfoldable pub call : Call → BlockCache → Result BlockCache
call (get key) c = ok (BlockCache.get key c).1
call (put key block) c = BlockCache.put key block c
call clear c = ok (BlockCache.clear c)
call reset_statistics c = ok (BlockCache.reset_statistics c)

-- The calls in a row, with the exceptions that reached the caller. A call that throws leaves the cache as it
-- was.
unfoldable pub run : List Call → BlockCache → List Exception × BlockCache
unfolding call
run [] c = ([], c)
run (k ∷ ks) c = elim (call k c) [
  | ok c' ↦ run ks c'
  | throw e ↦ let (es, c') = run ks c in (e ∷ es, c')
]

-- A put of a null block is an invalid argument.
abbrev pub refusals : List Call → List Exception
refusals [] = []
refusals (put key none ∷ ks) = invalid_argument ∷ refusals ks
refusals (_ ∷ ks) = refusals ks

-- A hit moves a node to the front, so the sum stays.
get-IsValid :
    (key : Key) (c : BlockCache)
    → IsValid c
    → IsValid (BlockCache.get key c).1
      × ((BlockCache.get key c).1.capacity_bytes ≡ c.capacity_bytes)
unfolding BlockCache.get
get-IsValid key c v = elim (Option-cases (find_node key c.lru)) [
  | inl p ↦
      rw (p, BlockCache.get)
        (record { counted = v.counted; fits = v.fits; capacity = v.capacity }, refl)
  | inr (n, p) ↦
      rw (p, BlockCache.get)
        (
          record {
            counted = omega (arith, v.counted, total-erase key c.lru n p);
            fits = v.fits;
            capacity = v.capacity;
          },
          refl,
        )
]

run-put :
    (key : Key) (block : DataBlock) (ks : List Call) (c c1 : BlockCache)
    → BlockCache.put key (some block) c ≡ ok c1
    → run (put key (some block) ∷ ks) c ≡ run ks c1
unfolding run
run-put key block ks c c1 p = rw (run, p) refl

run-put_null :
    (key : Key) (ks : List Call) (c : BlockCache)
    → run (put key none ∷ ks) c ≡ (invalid_argument ∷ (run ks c).0, (run ks c).1)
unfolding run BlockCache.put
run-put_null key ks c = refl

-- On a cache that is within its capacity, any sequence of calls leaves a cache of the same
-- capacity that is within it and counts the charges of its blocks; the calls that throw are the
-- puts of a null block, each with an invalid_argument.
pub run-IsValid :
    (ks : List Call) (c : BlockCache)
    → IsValid c
    → let (es, c') = run ks c in
      (es ≡ refusals ks) × IsValid c' × (c'.capacity_bytes ≡ c.capacity_bytes)
unfolding run BlockCache.clear BlockCache.reset_statistics
run-IsValid [] c v = (refl, v, refl)
run-IsValid (get key ∷ ks) c v =
    let (v1, e) = get-IsValid key c v in
    let (p, v2, g) = run-IsValid ks (BlockCache.get key c).1 v1 in (p, v2, g ∙ e)
run-IsValid (put key none ∷ ks) c v =
    let (p, v2, g) = run-IsValid ks c v in
    rw (run-put_null key ks c) (ap (λ es. invalid_argument ∷ es) p, v2, g)
run-IsValid (put key (some block) ∷ ks) c v =
    let (c1, p, v1, q) = put-Puts key block c v in
    let (r, v2, g) = run-IsValid ks c1 v1 in
    rw (run-put key block ks c c1 p) (r, v2, g ∙ q.capacity)
run-IsValid (clear ∷ ks) c v =
    run-IsValid ks (BlockCache.clear c)
      (record { counted = refl; fits = omega arith; capacity = v.capacity })
run-IsValid (reset_statistics ∷ ks) c v =
    run-IsValid ks (BlockCache.reset_statistics c)
      (record { counted = v.counted; fits = v.fits; capacity = v.capacity })
