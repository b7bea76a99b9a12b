-- ===== src/Storage/Validation.antt =====
-- src/validation.cpp and include/nebulakv/storage_limits.hpp
use nebula_kv.Prelude.{
  ℕ, ◌*◌, ◌≤◌, ◌≡◌, refl, ◌≢◌, Bytes, [], ◌∷◌, arith, ltb, length, if◌then◌else◌,
}
use nebula_kv.Prelude.Result.{Result, ok, throw, invalid_argument, length_error}

abbrev pub max_key_size : ℕ
max_key_size = 1024

abbrev pub max_value_size : ℕ
max_value_size = 1024 * 1024

unfoldable pub validate_key : Bytes → Result (Unit {0})
validate_key [] = throw invalid_argument
validate_key (b ∷ key) = if ltb max_key_size (length (b ∷ key)) then throw length_error else ok tt

unfoldable pub validate_value : Bytes → Result (Unit {0})
validate_value value = if ltb max_value_size (length value) then throw length_error else ok tt

-- What the two checks let through.
pub record IsKey (key : Bytes) : Type 0 where
  pub not_empty : key ≢ []
  pub fits : length key ≤ max_key_size

abbrev pub IsValue : Bytes → Type 0
IsValue value = length value ≤ max_value_size

pub validate_key-IsKey : (key : Bytes) → IsKey key → validate_key key ≡ ok tt
unfolding validate_key
validate_key-IsKey [] h = absurd (h.not_empty refl)
validate_key-IsKey (b ∷ key) h = ground arith

pub validate_key_sound : (key : Bytes) → validate_key key ≡ ok tt → IsKey key
unfolding validate_key
validate_key_sound [] h = cc
validate_key_sound (b ∷ key) h = record { not_empty = λ e. cc; fits = ground arith }

pub validate_value-IsValue : (text : Bytes) → IsValue text → validate_value text ≡ ok tt
unfolding validate_value
validate_value-IsValue text h = ground arith
