-- ===== src/ValueRecord.antt =====
-- include/ValueRecord.h: the value metadata that the WAL, the tables and the memory share.
use nova_kv.Prelude.{ℕ, zero, suc, Bytes, Bool, true, false, ◌≡◌, refl, ◌<◌, arith}

-- enum class ValueType : uint8_t { kValue = 1, kDeletion = 2 }. A cast of another byte gives a
-- value outside the enumerators, which C++ allows for a fixed underlying type: `other`.
pub data ValueType : Type 0 where
  value : ValueType
  deletion : ValueType
  other : ℕ → ValueType

-- struct ValueRecord
pub record ValueRecord : Type 0 where
  pub type : ValueType
  pub value : Bytes

-- static_cast<uint8_t>(type)
unfoldable pub type_byte : ValueType → ℕ
type_byte ValueType.value = 1
type_byte ValueType.deletion = 2
type_byte (ValueType.other t) = t

-- static_cast<ValueType>(t)
unfoldable pub type_of_byte : ℕ → ValueType
type_of_byte (suc zero) = ValueType.value
type_of_byte (suc (suc zero)) = ValueType.deletion
type_of_byte t = ValueType.other t

-- type == ValueType::kValue
unfoldable pub is_value : ValueType → Bool
is_value ValueType.value = true
is_value ValueType.deletion = false
is_value (ValueType.other t) = false

-- type == ValueType::kDeletion
unfoldable pub is_deletion : ValueType → Bool
is_deletion ValueType.value = false
is_deletion ValueType.deletion = true
is_deletion (ValueType.other t) = false

-- One of the two enumerators, which is all that the program's own calls pass.
abbrev pub IsEnumerator : ValueType → Type 0
IsEnumerator ValueType.value = Unit
IsEnumerator ValueType.deletion = Unit
IsEnumerator (ValueType.other t) = ⊥

pub type_of_byte-type_byte : (t : ValueType) → IsEnumerator t → type_of_byte (type_byte t) ≡ t
unfolding type_of_byte type_byte
type_of_byte-type_byte ValueType.value h = refl
type_of_byte-type_byte ValueType.deletion h = refl
type_of_byte-type_byte (ValueType.other t) h = absurd h

pub type_byte_lt : (t : ValueType) → IsEnumerator t → type_byte t < 256
unfolding type_byte
type_byte_lt ValueType.value h = omega arith
type_byte_lt ValueType.deletion h = omega arith
type_byte_lt (ValueType.other t) h = absurd h
