-- ===== src/Serial.antt =====
-- include/odb/mess/serial.hh: the two buffers of bytes, and the raw integers, which are written as the
-- host keeps them: little-endian here. A write or a `resize` finds the memory that it needs.
pub mod Raw
pub mod Formats
pub mod Structs
pub mod Sequences
pub mod RoundTrips
pub mod Machine
pub mod ReqTypes
mod Tests
use odb.Prelude.{
  ℕ, zero, suc, ◌+◌, ◌*◌, ◌/◌, ◌%◌, ◌^◌, List, [], ◌∷◌, ◌++◌, length, take, drop, replicate, leb,
  ltb, ◌==◌, if◌then◌else◌,
}
use odb.Prelude.Results.{Result, ok, fails, Fault.{undefined}, assert, ◌>>=◌, ◌>>◌}

-- `SerialOutBuff`, by its bytes.
abbrev pub SerialOutBuff : Type 0
SerialOutBuff = List ℕ

pub record SerialInBuff : Type 0 where
  pub data_bytes : List ℕ
  pub pos : ℕ

-- `write(data, len)`.
abbrev pub write : SerialOutBuff → List ℕ → SerialOutBuff
write os bytes = os ++ bytes

-- `SerialInBuff(data, len)`.
abbrev pub in_buff : List ℕ → SerialInBuff
in_buff bytes = record { data_bytes = bytes; pos = 0 }

-- `read(out_data, len)`. The sum of the assertion wraps, and a `memcpy` from behind the data is
-- undefined.
unfoldable pub read : ℕ → SerialInBuff → Result (List ℕ × SerialInBuff)
read len is = do
  assert (leb ((is.pos + len) % 2 ^ 64) (length is.data_bytes))
  if ltb (length is.data_bytes) (is.pos + len)
      then fails undefined
      else ok (take len (drop is.pos is.data_bytes), record is { pos = is.pos + len })

unfoldable pub check_eof : SerialInBuff → Result (Unit {0})
check_eof is = assert (is.pos == length is.data_bytes)

-- The `w` bytes of an integer, and the integer that they stand for.
unfoldable pub bytes_of : ℕ → ℕ → List ℕ
bytes_of zero x = []
bytes_of (suc w) x = x % 256 ∷ bytes_of w (x / 256)

unfoldable pub number_of : List ℕ → ℕ
number_of [] = 0
number_of (b ∷ bs) = b + 256 * number_of bs

-- `sb_serial_raw` and `sb_unserial_raw` at an integer of `w` bytes.
unfoldable pub serial_raw : ℕ → SerialOutBuff → ℕ → SerialOutBuff
unfolding bytes_of
serial_raw w os x = write os (bytes_of w x)

unfoldable pub unserial_raw : ℕ → SerialInBuff → Result (ℕ × SerialInBuff)
unfolding read number_of
unserial_raw w is = do (bytes, is') ← read w is; ok (number_of bytes, is')
