-- ===== src/Storage/BlockCache/Tests.antt =====
-- A cache with room for two small blocks.
use nebula_kv.Prelude.{◌≡◌, refl, false, none, some, List, [], ◌∷◌, arith}
use nebula_kv.Prelude.Result.{ok, invalid_argument}
use nebula_kv.Storage.BlockCache
use nebula_kv.Storage.BlockCache.{DataBlock, Key, BlockCache}
use nebula_kv.Storage.BlockCache.Budget.{IsValid}
use nebula_kv.Storage.BlockCache.Puts.{Puts, put-Puts}
use nebula_kv.Storage.BlockCache.History.{Call, get, put, clear, run, run-IsValid}

abbrev key : Key
key = record { table_id = b't' ∷ []; block_offset = 0 }

abbrev other : Key
other = record { table_id = b't' ∷ []; block_offset = 64 }

abbrev block : DataBlock
block = (b'k' ∷ [], record { value = 1 ∷ []; sequence_number = 1; deleted = false }) ∷ []

-- It has one block of 106 bytes already.
abbrev cache : BlockCache
cache = record {
  capacity_bytes = 250;
  lru = record { key = other; block = block; charge = 106 } ∷ [];
  current_bytes = 106;
  hits = 0;
  misses = 0;
  evictions = 0;
}

cache-IsValid : IsValid cache
cache-IsValid = record { counted = refl; fits = omega arith; capacity = omega arith }

put-Puts_example :
    (c : BlockCache) × (BlockCache.put key (some block) cache ≡ ok c)
    × IsValid c
    × Puts key block cache c
put-Puts_example = put-Puts key block cache cache-IsValid

abbrev calls : List Call
calls = put key (some block) ∷ get other ∷ put other none ∷ clear ∷ []

run-IsValid_example :
    let (es, c) = run calls cache in
    (es ≡ invalid_argument ∷ []) × IsValid c × (c.capacity_bytes ≡ 250)
run-IsValid_example = run-IsValid calls cache cache-IsValid
