-- ===== src/Raft/Codec.antt =====
-- src/raft/serialization.hpp: the bytes of commands and log entries. An encoder returns what it appends;
-- the decoder is the input behind its position.
pub mod RoundTrip
mod Tests
use nebula_kv.Prelude.{
  ℕ, zero, suc, ◌+◌, ◌-◌, ◌*◌, ◌/◌, ◌%◌, ◌^◌, Bytes, [], ◌∷◌, ◌++◌, ltb, ◌==◌, length, take, drop,
  if◌then◌else◌,
}
use nebula_kv.Prelude.Result.{Result, ok, throw, throw_if, runtime_error, length_error, ◌>>=◌, ◌>>◌}
use nebula_kv.Prelude.LittleEndian.{low_bytes, read_low_bytes}
use nebula_kv.Raft.Types.{Command, CommandType, noop, put, delete, LogEntry}

abbrev pub append_u8 : ℕ → Bytes
append_u8 value = value ∷ []

unfoldable pub append_u32 : ℕ → Bytes
append_u32 value = low_bytes 4 value

unfoldable pub append_u64 : ℕ → Bytes
append_u64 value = low_bytes 8 value

unfoldable pub append_bytes : Bytes → Result Bytes
append_bytes value = do
  throw_if (ltb (2 ^ 32 - 1) (length value)) length_error
  ok (append_u32 (length value) ++ value)

-- What a method of the decoder returns, and the input that is left.
abbrev pub Decoding : Type 0 → Type 0
Decoding A = Bytes → Result (A × Bytes)

unfoldable pub read_u8 : Decoding ℕ
read_u8 [] = throw runtime_error
read_u8 (b ∷ rest) = ok (b, rest)

unfoldable pub read_u32 : Decoding ℕ
unfolding read_low_bytes
read_u32 input = read_low_bytes 4 input

unfoldable pub read_u64 : Decoding ℕ
unfolding read_low_bytes
read_u64 input = read_low_bytes 8 input

unfoldable pub read_bytes : Decoding Bytes
unfolding read_u32
read_bytes input = do
  (size, rest) ← read_u32 input
  throw_if (ltb (length rest) size) runtime_error
  ok (take size rest, drop size rest)

abbrev pub type_value : CommandType → ℕ
type_value noop = 0
type_value put = 1
type_value delete = 2

abbrev pub type_of : ℕ → Result CommandType
type_of v =
    if v == 0
    then ok noop
    else if v == 1
    then ok put
    else if v == 2
    then ok delete
    else throw runtime_error

unfoldable pub encode_command : Command → Result Bytes
unfolding append_bytes
encode_command c = do
  key ← append_bytes c.key
  value ← append_bytes c.value
  ok (append_u8 (type_value c.type) ++ (key ++ value))

unfoldable pub decode_command : Decoding Command
unfolding read_u8 read_bytes
decode_command input = do
  (v, rest) ← read_u8 input
  type ← type_of v
  (key, rest1) ← read_bytes rest
  (value, rest2) ← read_bytes rest1
  ok (record { type = type; key = key; value = value }, rest2)

unfoldable pub encode_entry : LogEntry → Result Bytes
unfolding encode_command append_u64
encode_entry e = do
  command ← encode_command e.command
  ok (append_u64 e.index ++ (append_u64 e.term ++ command))

unfoldable pub decode_entry : Decoding LogEntry
unfolding read_u64 decode_command
decode_entry input = do
  (index, rest) ← read_u64 input
  (term, rest1) ← read_u64 rest
  (command, rest2) ← decode_command rest1
  ok (record { index = index; term = term; command = command }, rest2)
