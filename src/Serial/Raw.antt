-- ===== src/Serial/Raw.antt =====
-- The buffers and the raw integers: what is written is read back.
use odb.Prelude.{
  append_assoc, ℕ, zero, suc, ◌+◌, ◌*◌, ◌/◌, ◌^◌, ◌<◌, ◌≡◌, refl, ap, ◌∙◌, List, ◌++◌, length, take,
  drop, arith, length-append, take-append_length, drop-append_length,
}
use mathlib.Core.Path.{subst}
use odb.Prelude.Results.{ok}
use odb.Serial.{SerialOutBuff, SerialInBuff, read, bytes_of, number_of, serial_raw, unserial_raw}

-- The integers of `w` bytes are those below this.
abbrev pub limit : ℕ → ℕ
limit zero = 1
limit (suc w) = 256 * limit w

pub length-bytes_of : (w x : ℕ) → length (bytes_of w x) ≡ w
unfolding bytes_of
length-bytes_of zero x = refl
length-bytes_of (suc w) x = ap suc (length-bytes_of w (x / 256))

pub number_of-bytes_of : (w x : ℕ) → x < limit w → number_of (bytes_of w x) ≡ x
unfolding bytes_of number_of
number_of-bytes_of zero x h = omega arith
number_of-bytes_of (suc w) x h = omega (arith, number_of-bytes_of w (x / 256) (omega arith))

-- The data begin with what the buffer `os` holds.
abbrev pub Begins : List ℕ → SerialOutBuff → Type 0
Begins d os = (rest : List ℕ) × (d ≡ os ++ rest)

abbrev pub at_end : List ℕ → SerialOutBuff → SerialInBuff
at_end d os = record { data_bytes = d; pos = length os }

-- Data that begin with a longer buffer begin with the shorter one.
pub Begins-append : (d : List ℕ) (os bytes : List ℕ) → Begins d (os ++ bytes) → Begins d os
Begins-append d os bytes (rest, e) = (bytes ++ rest, e ∙ append_assoc os bytes rest)

pub read-append :
    (d os bytes : List ℕ)
    → Begins d (os ++ bytes)
    → length d < 2 ^ 64
    → read (length bytes) (at_end d os) ≡ ok (bytes, at_end d (os ++ bytes))
unfolding read
read-append d os bytes (rest, e) small = ground (arith, got, size, length-append os bytes)
  where
    got : take (length bytes) (drop (length os) d) ≡ bytes
    got =
        rw (e ∙ append_assoc os bytes rest, drop-append_length os (bytes ++ rest))
          (take-append_length bytes rest)

    size : length d ≡ length os + length bytes + length rest
    size = omega (arith, ap length e, length-append (os ++ bytes) rest, length-append os bytes)

-- An integer that fits is read back, and the data are read up to its end.
pub unserial_raw-serial_raw :
    (w x : ℕ) (d os : List ℕ)
    → x < limit w
    → Begins d (serial_raw w os x)
    → length d < 2 ^ 64
    → unserial_raw w (at_end d os) ≡ ok (x, at_end d (serial_raw w os x))
unfolding serial_raw unserial_raw
unserial_raw-serial_raw w x d os h begins small =
    let r : read w (at_end d os) ≡ ok (bytes_of w x, at_end d (os ++ bytes_of w x)) =
      subst (λ n. read n (at_end d os) ≡ ok (bytes_of w x, at_end d (os ++ bytes_of w x)))
        (length-bytes_of w x) (read-append d os (bytes_of w x) begins small) in
    ground (arith, r, number_of-bytes_of w x h)
