-- ===== src/Storage/SsTable/Manager/FileIds.antt =====
-- The ids of table files (src/sstable_manager.cpp): no new file gets the path of an older one.
use nebula_kv.Prelude.{
  ℕ, ◌+◌, ◌-◌, ◌<◌, ◌≡◌, ◌≢◌, refl, sym, ◌∙◌, ap, Bytes, length, take, drop, take-append, ◌++◌,
  arith, ◌⊎◌, inl, inr, Bool-cases, ◌==◌,
}
use nebula_kv.Prelude.Result.{ok, throw, overflow_error}
use nebula_kv.Prelude.Decimal.{padded, length-padded, padded_inj}
use nebula_kv.Storage.MemTable.{word}
use nebula_kv.Storage.SsTable.{SsTableLevel, level0, level1, TableFiles}
use nebula_kv.Storage.SsTable.Manager.{SsTableManager, reserve_file_id, table_path}

take-padded : (id : ℕ) (rest : Bytes) → take 20 (padded id ++ rest) ≡ padded id
take-padded id rest =
    ap (λ n. take n (padded id ++ rest)) {x = 20} {y = length (padded id)} (sym (length-padded id))
    ∙ take-append (padded id) rest

id_part : (l : SsTableLevel) (id g s : ℕ) → take 20 (drop 12 (table_path l id g s)) ≡ padded id
unfolding table_path
id_part level0 id g s = take-padded id _
id_part level1 id g s = take-padded id _

-- Files with different ids have different paths.
pub table_path_inj :
    (l l' : SsTableLevel) (id g s id' g' s' : ℕ)
    → id < word
    → id' < word
    → table_path l id g s ≡ table_path l' id' g' s'
    → id ≡ id'
table_path_inj l l' id g s id' g' s' h h' e =
    padded_inj id id' h h'
      (sym (id_part l id g s) ∙ ap (λ p. take 20 (drop 12 p)) e ∙ id_part l' id' g' s')

-- With a next file id that is a 64-bit number, reserve_file_id either throws an overflow_error at
-- the largest one and changes nothing, or takes the id without wrapping around, and no table_path
-- with a smaller id is that of a file with this one.
pub reserve_file_id-table_path :
    {R : Type 0} (F : TableFiles R) (m : SsTableManager R)
    → m.next_file_id < word
    → let (r, m') = reserve_file_id F m in
      ((m.next_file_id ≡ word - 1) × (r ≡ throw overflow_error) × (m' ≡ m))
      ⊎ ((id : ℕ) × (r ≡ ok id)
          × (m'.next_file_id ≡ id + 1)
          × (m'.next_file_id < word)
          × ((l l' : SsTableLevel) (g s id' g' s' : ℕ)
              → id' < id
              → table_path l id g s ≢ table_path l' id' g' s'))
unfolding reserve_file_id
reserve_file_id-table_path F m h = elim (Bool-cases (m.next_file_id == word - 1)) [
  | inl p ↦ rw p (inl (ground (arith, p), refl, refl))
  | inr p ↦ rw p (
      inr (
        m.next_file_id,
        refl,
        refl,
        ground (arith, p, h),
        λ l l' g s id' g' s' low e. absurd (
            omega (
              arith,
              low,
              table_path_inj l l' m.next_file_id g s id' g' s' h (omega (arith, low, h)) e,
            )),
      ))
]
