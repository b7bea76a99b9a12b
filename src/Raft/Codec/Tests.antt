-- ===== src/Raft/Codec/Tests.antt =====
-- A log entry that puts one key.
use nebula_kv.Prelude.{◌≡◌, Bytes, [], ◌∷◌, ◌++◌, arith}
use nebula_kv.Prelude.Result.{ok}
use nebula_kv.Raft.Types.{LogEntry, put}
use nebula_kv.Raft.Codec.{encode_entry, decode_entry}
use nebula_kv.Raft.Codec.RoundTrip.{IsEntry, decode_entry-encode_entry}

abbrev entry : LogEntry
entry = record {
  index = 300;
  term = 2;
  command = record { type = put; key = b'k' ∷ []; value = 1 ∷ 2 ∷ [] };
}

entry-IsEntry : IsEntry entry
entry-IsEntry = record {
  index = omega arith;
  term = omega arith;
  command = record { key = omega arith; value = omega arith };
}

decode_entry-encode_entry_example :
    (bytes : Bytes) × (encode_entry entry ≡ ok bytes)
    × (decode_entry (bytes ++ 9 ∷ []) ≡ ok (entry, 9 ∷ []))
decode_entry-encode_entry_example = decode_entry-encode_entry entry (9 ∷ []) entry-IsEntry
