-- ===== src/Storage/Manifest/Commits.antt =====
-- What `ManifestManager` (src/manifest.cpp) loads after a commit, also one that a crash cut short.
use mathlib.Core.List.{append-nil}
use nebula_kv.Prelude.{
  ℕ, zero, suc, ◌+◌, ◌-◌, ◌/◌, ◌<◌, ◌≤◌, ◌==◌, ◌≡◌, refl, sym, ◌∙◌, ap, Bytes, beq, beq_self,
  beq→eq, arith, ltb, length, length-append, take, take-append, false, true, not, List, [], ◌∷◌,
  ◌++◌, ◌||◌, Bool, none, some, Bool-cases, Option-cases, blt, drop, inl, inr,
}
use nebula_kv.Prelude.Result.{ok, throw, throw_if_passes, outcome, runtime_error, bind_returns}
use nebula_kv.Prelude.OrderedMap.{OrderedMap, find, insert_or_assign, find-insert_or_assign}
use nebula_kv.Prelude.Decimal.{padded, digits, padded_inj, length-padded}
use nebula_kv.Storage.Checksum.{crc32}
use nebula_kv.Storage.MemTable.{word}
use nebula_kv.Storage.SsTable.{SsTableMetadata}
use nebula_kv.Storage.Manifest.Format.{
  manifest_version, manifest_prefix, max_metadata_file_bytes, current_magic, append_uint16,
  append_uint32, append_checksum, ensure_at_end, is_empty, max_filename_bytes, has_parent_path,
  serialize_current, parse_current,
}
use nebula_kv.Storage.Manifest.Tables.{ManifestSnapshot, serialize_manifest, parse_manifest}
use nebula_kv.Storage.Manifest.Manager.{
  ManifestManager, manifest_path, read_file, found, check_tables, load_named, load, commit_manifest,
  commit_current, commit,
}
use nebula_kv.Storage.Manifest.Parts.{
  read_uint16-append_uint16, read_uint32-append_uint32, read_string_lem, expect_magic_lem,
  checked_uint32_lem, verified_payload-append_checksum,
}
use nebula_kv.Storage.Manifest.RoundTrip.{IsManifest, parse_manifest-serialize_manifest}

has_parent_path-append :
    (xs ys : Bytes)
    → has_parent_path xs ≡ false
    → has_parent_path ys ≡ false
    → has_parent_path (xs ++ ys) ≡ false
unfolding has_parent_path
has_parent_path-append [] ys p q = q
has_parent_path-append (x ∷ xs) ys p q = ground (arith, has_parent_path-append xs ys)

has_parent_path-digits : (count v : ℕ) → has_parent_path (digits count v) ≡ false
unfolding digits has_parent_path
has_parent_path-digits zero v = refl
has_parent_path-digits (suc count) v =
    has_parent_path-append (digits count (v / 10)) _ (has_parent_path-digits count (v / 10))
      (ground arith)

module _ (g : ℕ) where
  length-manifest_path : length (manifest_path g) ≡ 29
  unfolding manifest_path
  length-manifest_path = omega (arith, length-append manifest_prefix (padded g), length-padded g)

  has_parent_path-manifest_path : has_parent_path (manifest_path g) ≡ false
  unfolding manifest_path padded
  has_parent_path-manifest_path =
      has_parent_path-append manifest_prefix (digits 20 g) (unfold has_parent_path in refl)
        (has_parent_path-digits 20 g)

  starts : take 9 (manifest_path g) ≡ manifest_prefix
  unfolding manifest_path
  starts = take-append manifest_prefix (padded g)

  not_empty : is_empty (manifest_path g) ≡ false
  unfolding manifest_path
  not_empty = refl

  not_long : ltb max_filename_bytes (length (manifest_path g)) ≡ false
  not_long = ground (arith, length-manifest_path)

  size_passes :
      (length (manifest_path g) == 0 || ltb max_filename_bytes (length (manifest_path g))) ≡ false
  size_passes = ground (arith, length-manifest_path)

  abbrev pub current_bytes : Bytes
  current_bytes =
      append_uint16 manifest_version
      ++ (append_uint16 0 ++ (append_uint32 (length (manifest_path g)) ++ manifest_path g))

  serialize_current_lem :
      serialize_current (manifest_path g) ≡ ok (append_checksum (current_magic ++ current_bytes))
  unfolding serialize_current
  serialize_current_lem =
      rw
        (
          not_empty,
          not_long,
          checked_uint32_lem (length (manifest_path g)) (omega (arith, length-manifest_path)),
        )
        refl

  parse_current_lem :
      parse_current (append_checksum (current_magic ++ current_bytes)) ≡ ok (manifest_path g)
  unfolding parse_current ensure_at_end
  parse_current_lem =
      rw
        (
          verified_payload-append_checksum (current_magic ++ current_bytes),
          expect_magic_lem current_magic current_bytes,
          ← append-nil current_bytes,
          read_uint16-append_uint16 _ [] manifest_version (omega arith),
          read_uint16-append_uint16 _ [] 0 (omega arith),
          read_uint32-append_uint32 _ [] (length (manifest_path g))
              (omega (arith, length-manifest_path)),
          size_passes,
          read_string_lem (manifest_path g) [],
          has_parent_path-manifest_path,
          starts,
          beq_self manifest_prefix,
        )
        refl

  read_file-current :
      read_file (append_checksum (current_magic ++ current_bytes))
      ≡ ok (append_checksum (current_magic ++ current_bytes))
  unfolding read_file append_checksum append_uint32 append_uint16
  read_file-current = ground (
    arith,
    length-manifest_path,
    length-append (current_magic ++ current_bytes)
        (append_uint32 (crc32 (current_magic ++ current_bytes))),
  )

abbrev pub AllExist : (Bytes → Bool) → List SsTableMetadata → Type 0
AllExist exists [] = Unit
AllExist exists (t ∷ ts) = (exists t.path ≡ true) × AllExist exists ts

check_tables_lem :
    (exists : Bytes → Bool) (ts : List SsTableMetadata)
    → AllExist exists ts
    → check_tables exists ts ≡ ok tt
unfolding check_tables
check_tables_lem exists [] h = refl
check_tables_lem exists (t ∷ ts) h = rw (h.0, check_tables_lem exists ts h.1) refl

read_file_lem :
    (bytes : Bytes) → length bytes ≤ max_metadata_file_bytes → read_file bytes ≡ ok bytes
unfolding read_file
read_file_lem bytes h = ground arith

load_named_lem :
    (exists : Bytes → Bool) (s : ManifestSnapshot) (bytes : Bytes) (manifests : OrderedMap Bytes)
    → find (manifest_path s.generation) manifests ≡ some bytes
    → length bytes ≤ max_metadata_file_bytes
    → parse_manifest bytes ≡ ok s
    → AllExist exists s.tables
    → load_named exists (append_checksum (current_magic ++ current_bytes s.generation)) manifests
      ≡ ok (manifest_path s.generation, s)
unfolding load_named
load_named_lem exists s bytes manifests f l p e =
    rw
      (
        read_file-current s.generation,
        parse_current_lem s.generation,
        f,
        read_file_lem bytes l,
        p,
        beq_self (manifest_path s.generation),
        check_tables_lem exists s.tables e,
      )
      refl

-- What names a manifest to `load`: the file of its generation.
record Named (exists : Bytes → Bool) (c : Bytes) (manifests : OrderedMap Bytes) (f : Bytes)
    (s : ManifestSnapshot) : Type 0 where
  named : f ≡ manifest_path s.generation
  kept :
      (manifests' : OrderedMap Bytes)
      → find f manifests' ≡ find f manifests
      → load_named exists c manifests' ≡ ok (f, s)

load_named-Named :
    (exists : Bytes → Bool) (c : Bytes) (manifests : OrderedMap Bytes) (f : Bytes)
    (s : ManifestSnapshot)
    → load_named exists c manifests ≡ ok (f, s)
    → Named exists c manifests f s
unfolding load_named
load_named-Named exists c manifests f s h =
    let (c1, e1, h1) = bind_returns (read_file c) _ (f, s) h in
    let (f1, e2, h2) = bind_returns (parse_current c1) _ (f, s) h1 in
    let (b, e3, h3) = bind_returns (found (find f1 manifests)) _ (f, s) h2 in
    let (b1, e4, h4) = bind_returns (read_file b) _ (f, s) h3 in
    let (s1, e5, h5) = bind_returns (parse_manifest b1) _ (f, s) h4 in
    let (n, h6) =
      throw_if_passes (not (beq f1 (manifest_path s1.generation))) runtime_error _ (f, s) h5 in
    let q : (f1 ≡ f) × (s1 ≡ s) = ground (arith, h6) in
    record {
      named =
          sym q.0
          ∙ beq→eq f1 (manifest_path s1.generation) (ground (arith, n))
          ∙ ap (λ (x : ManifestSnapshot). manifest_path x.generation) q.1;
      kept = λ manifests' k.
          let k1 : find f1 manifests' ≡ find f1 manifests = rw q.0 k in
          rw (e1, e2, k1, e3, e4, e5, n) h6;
    }

-- The parts of `load` where CURRENT is there.
load_ok :
    (exists : Bytes → Bool) (m : ManifestManager) (c f : Bytes) (s : ManifestSnapshot)
    → m.current ≡ some c
    → load_named exists c m.manifests ≡ ok (f, s)
    → (load exists m).0 ≡ ok (some s)
unfolding load
load_ok exists m c f s p h = rw (p, h) refl

load_parts :
    (exists : Bytes → Bool) (m : ManifestManager) (s : ManifestSnapshot)
    → (load exists m).0 ≡ ok (some s)
    → (c : Bytes) × (f : Bytes) × (m.current ≡ some c)
      × (load_named exists c m.manifests ≡ ok (f, s))
unfolding load
load_parts exists m s h = elim (Option-cases m.current) [
  | inl p ↦ absurd (ground (arith, h, p))
  | inr (c, p) ↦ elim (outcome (load_named exists c m.manifests)) [
    | inl ((f, s'), q) ↦ (c, f, p, q ∙ ap (λ x. ok (f, x)) (ground (arith, h, p, q)))
    | inr (e, q) ↦ absurd (ground (arith, h, p, q))
  ]
]

manifest_path_inj : (a b : ℕ) → a < word → b < word → manifest_path a ≡ manifest_path b → a ≡ b
unfolding manifest_path
manifest_path_inj a b p q e = padded_inj a b p q (ap (drop 9) e)

other_path :
    (f : Bytes) (a b : ℕ)
    → f ≡ manifest_path a
    → a + 1 ≡ b
    → b < word
    → beq f (manifest_path b) ≡ false
other_path f a b e g w = elim (Bool-cases (beq f (manifest_path b))) [
  | inl p ↦
      let same =
        manifest_path_inj a b (omega (arith, g, w)) w (sym e ∙ beq→eq f (manifest_path b) p) in
      absurd (omega (arith, same, g))
  | inr p ↦ p
]

insert_or_assign_cons :
    (k v : Bytes) (m : OrderedMap Bytes)
    → (x : Bytes × Bytes) × (rest : OrderedMap Bytes) × (insert_or_assign k v m ≡ x ∷ rest)
unfolding insert_or_assign
insert_or_assign_cons k v [] = ((k, v), [], refl)
insert_or_assign_cons k v ((j, w) ∷ m) = elim (Bool-cases (beq k j)) [
  | inl p ↦ ((j, v), m, rw p refl)
  | inr p ↦ elim (Bool-cases (blt k j)) [
    | inl q ↦ ((k, v), (j, w) ∷ m, rw (p, q) refl)
    | inr q ↦ ((j, w), insert_or_assign k v m, rw (p, q) refl)
  ]
]

module _ (exists : Bytes → Bool) (m : ManifestManager) (s : ManifestSnapshot) (bytes : Bytes) where
  load-commit_manifest :
      (old : ManifestSnapshot)
      → (load exists m).0 ≡ ok (some old)
      → old.generation + 1 ≡ s.generation
      → s.generation < word
      → (load exists (commit_manifest s bytes m)).0 ≡ ok (some old)
  unfolding commit_manifest
  load-commit_manifest old h g w =
      let (c, f, p, q) = load_parts exists m old h in
      let n = load_named-Named exists c m.manifests f old q in
      load_ok exists (commit_manifest s bytes m) c f old p (
        n.kept _ (
          find-insert_or_assign (manifest_path s.generation) f bytes m.manifests
          ∙ rw (other_path f old.generation s.generation n.named g w) refl))

  commit_manifest_refused :
      (load exists (record (commit_manifest s bytes m) { current = none })).0 ≡ throw runtime_error
  unfolding load commit_manifest
  commit_manifest_refused =
      let (x, rest, e) = insert_or_assign_cons (manifest_path s.generation) bytes m.manifests in
      rw e refl

abbrev pub next_snapshot : List SsTableMetadata → ℕ → ManifestManager → ManifestSnapshot
next_snapshot tables next_file_id m = record {
  generation = m.current_generation + 1;
  next_file_id = next_file_id;
  tables = tables;
}

abbrev pub committed : ManifestSnapshot → Bytes → ManifestManager → ManifestManager
committed s bytes m = record (commit_manifest s bytes m) {
  current = some (append_checksum (current_magic ++ current_bytes s.generation));
  current_generation = s.generation;
  active_manifest_path = manifest_path s.generation;
}

-- A commit of a manifest that is in order returns.
pub commit_lem :
    (tables : List SsTableMetadata) (next_file_id : ℕ) (m : ManifestManager) (bytes : Bytes)
    → let s = next_snapshot tables next_file_id m in
      s.generation < word
      → serialize_manifest s ≡ ok bytes
      → commit tables next_file_id m ≡ (ok s, committed s bytes m)
unfolding commit commit_current commit_manifest
commit_lem tables next_file_id m bytes w e =
    let room : (m.current_generation == word - 1) ≡ false = ground (arith, w) in
    rw (room, e, serialize_current_lem (m.current_generation + 1)) refl

parses :
    (s : ManifestSnapshot) (bytes : Bytes)
    → IsManifest s
    → serialize_manifest s ≡ ok bytes
    → parse_manifest bytes ≡ ok s
parses s bytes h e =
    let (bytes', p, q) = parse_manifest-serialize_manifest s h in
    let same : bytes' ≡ bytes = ground (arith, p, e) in rw same at q

pub load-commit :
    (exists : Bytes → Bool) (tables : List SsTableMetadata) (next_file_id : ℕ) (m : ManifestManager)
    (bytes : Bytes)
    → let s = next_snapshot tables next_file_id m in
      IsManifest s
      → serialize_manifest s ≡ ok bytes
      → length bytes ≤ max_metadata_file_bytes
      → AllExist exists tables
      → (load exists (commit tables next_file_id m).1).0 ≡ ok (some s)
unfolding commit_manifest
load-commit exists tables next_file_id m bytes im e l a =
    let s = next_snapshot tables next_file_id m in
    let path = manifest_path s.generation in
    rw (commit_lem tables next_file_id m bytes im.generation.1 e) (
      load_ok exists (committed s bytes m) _ path s refl (
        load_named_lem exists s bytes _
          (find-insert_or_assign path path bytes m.manifests ∙ rw (beq_self path) refl) l
          (parses s bytes im e) a))

-- On a directory whose manifest is loaded, a commit of tables whose manifest is in order, fits the
-- size limit and names files that exist returns, and a load then finds exactly these tables; after
-- the first of its two writes a load still finds the manifest from before, except that without a
-- CURRENT file it is refused with a runtime_error.
pub commit-load :
    (exists : Bytes → Bool) (tables : List SsTableMetadata) (next_file_id : ℕ) (m : ManifestManager)
    (old : ManifestSnapshot) (bytes : Bytes)
    → let s = next_snapshot tables next_file_id m in
      (load exists m).0 ≡ ok (some old)
      → old.generation ≡ m.current_generation
      → IsManifest s
      → serialize_manifest s ≡ ok bytes
      → length bytes ≤ max_metadata_file_bytes
      → AllExist exists tables
      → ((load exists (commit_manifest s bytes m)).0 ≡ ok (some old))
        × ((commit tables next_file_id m).0 ≡ ok s)
        × ((load exists (commit tables next_file_id m).1).0 ≡ ok (some s))
        × ((load exists (record (commit_manifest s bytes m) { current = none })).0
            ≡ throw runtime_error)
commit-load exists tables next_file_id m old bytes h g im e l a =
    let s = next_snapshot tables next_file_id m in
    (
      load-commit_manifest exists m s bytes old h (omega (arith, g)) im.generation.1,
      ap (λ x. x.0) (commit_lem tables next_file_id m bytes im.generation.1 e),
      load-commit exists tables next_file_id m bytes im e l a,
      commit_manifest_refused exists m s bytes,
    )
