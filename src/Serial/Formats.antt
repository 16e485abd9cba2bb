-- ===== src/Serial/Formats.antt =====
-- src/mess/request.cc: `sb_serialize` and `sb_unserialize`, at the integers, the strings, the vectors and
-- the enumerations. `unserialize` writes into an object that is there, which comes first. A format is
-- named, since types of C++ that differ in their width are one type here.
use odb.Prelude.{
  ℕ, ◌-◌, Bool, true, false, List, [], ◌∷◌, ◌++◌, length, take, replicate, ◌==◌, if◌then◌else◌,
}
use odb.Prelude.Results.{Str, Result, ok, ◌>>=◌}
use odb.Types.{
  StoppedState,
  StoppedState.{ready},
  RegKind,
  RegKind.{general, program_counter, stack_pointer, base_pointer, flags},
  ResumeType,
  ResumeType.{to_finish, continue, step, step_over, step_out},
}
use odb.Serial.{SerialOutBuff, SerialInBuff, write, read, serial_raw, unserial_raw}

-- `os << item` and `is >> item`, and what a new `T` holds in a vector that grows.
pub record Format (A : Type 0) : Type 0 where
  pub blank : A
  pub serialize : SerialOutBuff → A → SerialOutBuff
  pub unserialize : A → SerialInBuff → Result (A × SerialInBuff)

-- `RAW_SERIAL` of an unsigned integer of `w` bytes.
abbrev pub raw : ℕ → Format ℕ
raw w = record { blank = 0; serialize = serial_raw w; unserialize = λ old is. unserial_raw w is }

-- `std::string`.
unfoldable pub serialize_string : SerialOutBuff → Str → SerialOutBuff
unfolding serial_raw
serialize_string os s = write (serial_raw 8 os (length s)) s

unfoldable pub unserialize_string : Str → SerialInBuff → Result (Str × SerialInBuff)
unfolding unserial_raw
unserialize_string old is = do (size, is') ← unserial_raw 8 is; read size is'

abbrev pub string : Format Str
string = record { blank = []; serialize = serialize_string; unserialize = unserialize_string }

module _ {A : Type 0} (f : Format A) where
  -- The loops over `v[i]`.
  unfoldable pub serialize_items : SerialOutBuff → List A → SerialOutBuff
  serialize_items os [] = os
  serialize_items os (x ∷ v) = serialize_items (f.serialize os x) v

  unfoldable pub unserialize_items : List A → SerialInBuff → Result (List A × SerialInBuff)
  unserialize_items [] is = ok ([], is)
  unserialize_items (x ∷ v) is = do
    (x', is') ← f.unserialize x is
    (v', is'') ← unserialize_items v is'
    ok (x' ∷ v', is'')

  -- `v.resize(size)`.
  abbrev pub resized : ℕ → List A → List A
  resized size v = take size v ++ replicate (size - length v) f.blank

  unfoldable pub serialize_vector : SerialOutBuff → List A → SerialOutBuff
  unfolding serialize_items serial_raw
  serialize_vector os v = serialize_items (serial_raw 8 os (length v)) v

  unfoldable pub unserialize_vector : List A → SerialInBuff → Result (List A × SerialInBuff)
  unfolding unserialize_items unserial_raw
  unserialize_vector old is = do
    (size, is') ← unserial_raw 8 is
    unserialize_items (resized size old) is'

  -- `std::vector<T>`.
  abbrev pub vector : Format (List A)
  vector = record { blank = []; serialize = serialize_vector; unserialize = unserialize_vector }

-- A type that is cast to a byte and back.
unfoldable pub byte_format : {A : Type 0} → A → (A → ℕ) → (ℕ → A) → Format A
unfolding serial_raw unserial_raw
byte_format blank to_byte of_byte = record {
  blank = blank;
  serialize = λ os e. serial_raw 1 os (to_byte e);
  unserialize = λ old is. do
    (b, is') ← unserial_raw 1 is
    ok (of_byte b, is');
}

-- The `bool`s, which are written as `uint8_t`.
abbrev pub bool_byte : Bool → ℕ
bool_byte true = 1
bool_byte false = 0

abbrev pub byte_bool : ℕ → Bool
byte_bool b = if b == 0 then false else true

abbrev pub bool : Format Bool
bool = byte_format false bool_byte byte_bool

abbrev pub stopped_state_byte : StoppedState → ℕ
stopped_state_byte ready = 0
stopped_state_byte StoppedState.exit = 1
stopped_state_byte StoppedState.error = 2
stopped_state_byte (StoppedState.other n) = n

abbrev pub byte_stopped_state : ℕ → StoppedState
byte_stopped_state n =
    if n == 0
    then ready
    else if n == 1
    then StoppedState.exit
    else if n == 2
    then StoppedState.error
    else StoppedState.other n

abbrev pub stopped_state : Format StoppedState
stopped_state = byte_format ready stopped_state_byte byte_stopped_state

abbrev pub reg_kind_byte : RegKind → ℕ
reg_kind_byte general = 0
reg_kind_byte program_counter = 1
reg_kind_byte stack_pointer = 2
reg_kind_byte base_pointer = 3
reg_kind_byte flags = 4
reg_kind_byte (RegKind.other n) = n

abbrev pub byte_reg_kind : ℕ → RegKind
byte_reg_kind n =
    if n == 0
    then general
    else if n == 1
    then program_counter
    else if n == 2
    then stack_pointer
    else if n == 3
    then base_pointer
    else if n == 4
    then flags
    else RegKind.other n

abbrev pub reg_kind : Format RegKind
reg_kind = byte_format general reg_kind_byte byte_reg_kind

abbrev pub resume_type_byte : ResumeType → ℕ
resume_type_byte to_finish = 0
resume_type_byte continue = 1
resume_type_byte step = 2
resume_type_byte step_over = 3
resume_type_byte step_out = 4
resume_type_byte (ResumeType.other n) = n

abbrev pub byte_resume_type : ℕ → ResumeType
byte_resume_type n =
    if n == 0
    then to_finish
    else if n == 1
    then continue
    else if n == 2
    then step
    else if n == 3
    then step_over
    else if n == 4
    then step_out
    else ResumeType.other n

abbrev pub resume_type : Format ResumeType
resume_type = byte_format to_finish resume_type_byte byte_resume_type
