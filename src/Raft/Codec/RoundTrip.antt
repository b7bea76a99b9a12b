-- ===== src/Raft/Codec/RoundTrip.antt =====
-- Commands and log entries read back as they were written.
use mathlib.Core.List.{append_assoc}
use nebula_kv.Prelude.{
  ℕ, ◌-◌, ◌^◌, ◌<◌, ◌≡◌, refl, ◌∙◌, ap, Bytes, ◌++◌, arith, ltb, length, length-append, take-append,
  drop-append, false,
}
use nebula_kv.Prelude.Result.{ok}
use nebula_kv.Prelude.LittleEndian.{read_low_bytes-low_bytes}
use nebula_kv.Raft.Types.{Command, CommandType, noop, put, delete, LogEntry, word}
use nebula_kv.Raft.Codec.{
  append_u8, append_u32, append_u64, append_bytes, read_u8, read_u32, read_u64, read_bytes,
  type_value, type_of, encode_command, decode_command, encode_entry, decode_entry,
}

pub read_u32-append_u32 :
    (v : ℕ) (tail : Bytes) → v < 2 ^ 32 → read_u32 (append_u32 v ++ tail) ≡ ok (v, tail)
unfolding read_u32 append_u32
read_u32-append_u32 v tail h = read_low_bytes-low_bytes 4 v tail (omega (arith, h))

pub read_u64-append_u64 :
    (v : ℕ) (tail : Bytes) → v < word → read_u64 (append_u64 v ++ tail) ≡ ok (v, tail)
unfolding read_u64 append_u64
read_u64-append_u64 v tail h = read_low_bytes-low_bytes 8 v tail (omega (arith, h))

short_enough : (n : ℕ) → n < 2 ^ 32 → ltb (2 ^ 32 - 1) n ≡ false
short_enough n h = ground arith

pub append_bytes_ok :
    (value : Bytes)
    → length value < 2 ^ 32
    → append_bytes value ≡ ok (append_u32 (length value) ++ value)
unfolding append_bytes
append_bytes_ok value h = rw (short_enough (length value) h) refl

not_short : (xs ys : Bytes) → ltb (length (xs ++ ys)) (length xs) ≡ false
not_short xs ys = ground (arith, length-append xs ys)

pub read_bytes-append_bytes :
    (value tail : Bytes)
    → length value < 2 ^ 32
    → read_bytes ((append_u32 (length value) ++ value) ++ tail) ≡ ok (value, tail)
unfolding read_bytes
read_bytes-append_bytes value tail h =
    rw
      (
        append_assoc (append_u32 (length value)) value tail,
        read_u32-append_u32 (length value) (value ++ tail) h,
        not_short value tail,
        take-append value tail,
        drop-append value tail,
      )
      refl

-- The sizes that the format has room for.
pub record IsCommand (c : Command) : Type 0 where
  pub key : length c.key < 2 ^ 32
  pub value : length c.value < 2 ^ 32

pub record IsEntry (e : LogEntry) : Type 0 where
  pub index : e.index < word
  pub term : e.term < word
  pub command : IsCommand e.command

type_of-type_value : (t : CommandType) → type_of (type_value t) ≡ ok t
type_of-type_value noop = refl
type_of-type_value put = refl
type_of-type_value delete = refl

abbrev part : Bytes → Bytes
part value = append_u32 (length value) ++ value

decode_command-encode_command :
    (c : Command) (tail : Bytes)
    → IsCommand c
    → (bytes : Bytes) × (encode_command c ≡ ok bytes)
      × (decode_command (bytes ++ tail) ≡ ok (c, tail))
unfolding encode_command decode_command read_u8
decode_command-encode_command c tail h = (
  append_u8 (type_value c.type) ++ (part c.key ++ part c.value),
  rw (append_bytes_ok c.key h.key, append_bytes_ok c.value h.value) refl,
  rw
      (
        type_of-type_value c.type,
        append_assoc (part c.key) (part c.value) tail,
        read_bytes-append_bytes c.key (part c.value ++ tail) h.key,
        read_bytes-append_bytes c.value tail h.value,
      )
      refl,
)

decode_entry_parts :
    (e : LogEntry) (command tail : Bytes)
    → IsEntry e
    → decode_command (command ++ tail) ≡ ok (e.command, tail)
    → decode_entry (append_u64 e.index ++ (append_u64 e.term ++ (command ++ tail))) ≡ ok (e, tail)
unfolding decode_entry
decode_entry_parts e command tail h q =
    rw
      (
        read_u64-append_u64 e.index (append_u64 e.term ++ (command ++ tail)) h.index,
        read_u64-append_u64 e.term (command ++ tail) h.term,
        q,
      )
      refl

-- A log entry whose numbers are 64-bit words and whose key and value are shorter than 2^32 bytes
-- is encoded without an exception, and decodes to the same entry, with the input behind it left,
-- whatever that is.
pub decode_entry-encode_entry :
    (e : LogEntry) (tail : Bytes)
    → IsEntry e
    → (bytes : Bytes) × (encode_entry e ≡ ok bytes) × (decode_entry (bytes ++ tail) ≡ ok (e, tail))
unfolding encode_entry
decode_entry-encode_entry e tail h =
    let (command, p, q) = decode_command-encode_command e.command tail h.command in
    (
      append_u64 e.index ++ (append_u64 e.term ++ command),
      rw p refl,
      ap decode_entry (
            append_assoc (append_u64 e.index) (append_u64 e.term ++ command) tail
            ∙ ap (λ bs. append_u64 e.index ++ bs) (append_assoc (append_u64 e.term) command tail))
          ∙ decode_entry_parts e command tail h q,
    )
