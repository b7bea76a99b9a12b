-- ===== src/Storage/BlockCache.antt =====
-- src/block_cache.cpp and include/nebulakv/block_cache.hpp. The mutex makes each method one step. The
-- index maps each key to its place in the list, so a lookup in it is a search of the list.
pub mod Budget
pub mod Puts
pub mod History
mod Tests
use nebula_kv.Prelude.{
  ℕ, zero, suc, ◌+◌, ◌-◌, ◌*◌, ◌%◌, Bytes, Bool, true, false, ◌&&◌, not, Option, none, some, List,
  [], ◌∷◌, ltb, ◌==◌, beq, length, take, if◌then◌else◌,
}
use nebula_kv.Prelude.Result.{Result, ok, throw, throw_if, invalid_argument, ◌>>◌, ◌>>=◌}
use nebula_kv.Storage.MemTable.{Entry, word}

-- include/nebulakv/data_block.hpp
abbrev pub DataBlock : Type 0
DataBlock = List (Bytes × Entry)

pub record Key : Type 0 where
  pub table_id : Bytes
  pub block_offset : ℕ

pub record CacheNode : Type 0 where
  pub key : Key
  pub block : DataBlock
  pub charge : ℕ

pub record BlockCache : Type 0 where
  pub capacity_bytes : ℕ
  pub lru : List CacheNode
  pub current_bytes : ℕ
  pub hits : ℕ
  pub misses : ℕ
  pub evictions : ℕ

unfoldable pub make_cache : ℕ → Result BlockCache
make_cache capacity_bytes = do
  throw_if (capacity_bytes == 0) invalid_argument
  ok (record {
    capacity_bytes = capacity_bytes;
    lru = [];
    current_bytes = 0;
    hits = 0;
    misses = 0;
    evictions = 0;
  })

-- A vector takes 24 bytes; a record of a key of 32 and an entry of 48 takes 80.
abbrev data_block_size : ℕ
data_block_size = 24

abbrev record_size : ℕ
record_size = 80

abbrev add_sizes : DataBlock → ℕ → ℕ
add_sizes [] result = result
add_sizes ((key, entry) ∷ records) result =
    add_sizes records (((result + length key) % word + length entry.value) % word)

unfoldable pub estimate_charge : DataBlock → ℕ
estimate_charge block = add_sizes block ((data_block_size + length block * record_size) % word)

abbrev pub same_key : Key → Key → Bool
same_key a b = beq a.table_id b.table_id && a.block_offset == b.block_offset

unfoldable pub find_node : Key → List CacheNode → Option CacheNode
find_node key [] = none
find_node key (n ∷ ns) = let rest = find_node key ns in if same_key n.key key then some n else rest

-- The list without the node of the key.
unfoldable pub erase_node : Key → List CacheNode → List CacheNode
erase_node key [] = []
erase_node key (n ∷ ns) =
    let rest = erase_node key ns in if same_key n.key key then ns else n ∷ rest

unfoldable pub get : Key → BlockCache → Option DataBlock × BlockCache
unfolding find_node
get key c = elim (find_node key c.lru) [
  | none ↦ (none, record c { misses = (c.misses + 1) % word })
  | some n ↦ (some n.block, record c { lru = n ∷ erase_node key c.lru; hits = (c.hits + 1) % word })
]

abbrev pub last_node : List CacheNode → Option CacheNode
last_node [] = none
last_node (n ∷ []) = some n
last_node (_ ∷ m ∷ ns) = last_node (m ∷ ns)

abbrev pub drop_last : List CacheNode → List CacheNode
drop_last [] = []
drop_last (n ∷ []) = []
drop_last (n ∷ m ∷ ns) = n ∷ drop_last (m ∷ ns)

abbrev pub subtract : ℕ → ℕ → ℕ
subtract a b = (a + word - b) % word

-- Every round takes one node off the list, so its length is fuel enough.
unfoldable pub evict_loop : ℕ → ℕ → BlockCache → BlockCache
evict_loop zero incoming_charge c = c
evict_loop (suc fuel) incoming_charge c = elim (last_node c.lru) [
  | none ↦ c
  | some n ↦ elim (ltb (subtract c.capacity_bytes incoming_charge) c.current_bytes) [
    | false ↦ c
    | true ↦ evict_loop fuel incoming_charge (record c {
      lru = drop_last c.lru;
      current_bytes = subtract c.current_bytes n.charge;
      evictions = (c.evictions + 1) % word;
    })
  ]
]

unfoldable pub evict_until_fits : ℕ → BlockCache → BlockCache
unfolding evict_loop
evict_until_fits incoming_charge c = evict_loop (length c.lru) incoming_charge c

unfoldable pub without : Key → BlockCache → BlockCache
unfolding find_node erase_node
without key c = elim (find_node key c.lru) [
  | none ↦ c
  | some n ↦ record c {
    lru = erase_node key c.lru;
    current_bytes = subtract c.current_bytes n.charge;
  }
]

abbrev pub push_front : Key → DataBlock → ℕ → BlockCache → BlockCache
push_front key block charge c = record c {
  lru = record { key = key; block = block; charge = charge } ∷ c.lru;
  current_bytes = (c.current_bytes + charge) % word;
}

-- A null pointer is `none`.
unfoldable pub put : Key → Option DataBlock → BlockCache → Result BlockCache
unfolding without evict_until_fits
put key none c = throw invalid_argument
put key (some block) c0 =
    let charge = estimate_charge block in
    let c = without key c0 in
    if ltb c.capacity_bytes charge
    then ok c
    else ok (push_front key block charge (evict_until_fits charge c))

unfoldable pub clear : BlockCache → BlockCache
clear c = record c { lru = []; current_bytes = 0 }

unfoldable pub reset_statistics : BlockCache → BlockCache
reset_statistics c = record c { hits = 0; misses = 0; evictions = 0 }
