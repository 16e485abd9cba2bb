-- ===== src/TcpTransfer.antt =====
-- src/mess/tcp-transfer.cc: a buffer is sent as its size in 32 bits and its bytes. The system calls `read` and
-- `send` on the socket are a parameter: one may move fewer bytes than it was asked for.
pub mod Stream
mod Tests
use odb.Prelude.{
  ℕ, zero, suc, ◌-◌, ◌%◌, ◌^◌, ◌≤◌, Bool, true, false, List, [], ◌∷◌, ◌++◌, length, take, drop,
  Option, none, some, ◌==◌,
}
use odb.Serial.{SerialOutBuff, SerialInBuff, in_buff, bytes_of, number_of}

-- `read(fd, buf, len)` gives the bytes that it stored, and `send(fd, buf, len, MSG_NOSIGNAL)` how many it took.
-- A result that is 0 or negative is `none` of a `read` and 0 of a `send`. A `send` is documented to take at most
-- what it is given, so `len -= uwrote` does not wrap.
pub record Socket (Net : Type 0) : Type 0 where
  pub read : ℕ → Net → Option (List ℕ) × Net
  pub send : List ℕ → Net → ℕ × Net
  pub send_fits : (in_buf : List ℕ) (net : Net) → (send in_buf net).0 ≤ length in_buf

module _ {Net : Type 0} (fd : Socket Net) where
  -- `while (len)`, on fuel: whether `len == 0` at the end, with the bytes that were stored.
  unfoldable pub read_mult : ℕ → ℕ → Net → Option (Bool × List ℕ × Net)
  read_mult zero len net = none
  read_mult (suc fuel) zero net = some (true, [], net)
  read_mult (suc fuel) (suc n) net = elim ((fd.read (suc n) net).0) [
    | none ↦ some (false, [], (fd.read (suc n) net).1)
    | some bytes ↦ elim (read_mult fuel (suc n - length bytes) (fd.read (suc n) net).1) [
      | none ↦ none
      | some (done, more, net') ↦ some (done, bytes ++ more, net')
    ]
  ]

  unfoldable pub write_mult : ℕ → List ℕ → Net → Option (Bool × Net)
  write_mult zero in_buf net = none
  write_mult (suc fuel) [] net = some (true, net)
  write_mult (suc fuel) (b ∷ in_buf) net = elim ((fd.send (b ∷ in_buf) net).0 == 0) [
    | true ↦ some (false, (fd.send (b ∷ in_buf) net).1)
    | false ↦
        write_mult fuel (drop (fd.send (b ∷ in_buf) net).0 (b ∷ in_buf))
          (fd.send (b ∷ in_buf) net).1
  ]

  -- `write_mult(…) && write_mult(…)`: each loop has one round more than it has bytes.
  unfoldable pub send_data_tcp : SerialOutBuff → Net → Option (Bool × Net)
  unfolding bytes_of
  send_data_tcp os net = elim (write_mult 5 (bytes_of 4 (length os)) net) [
    | none ↦ none
    | some (false, net') ↦ some (false, net')
    | some (true, net') ↦ write_mult (suc (length os)) (take (length os % 2 ^ 32) os) net'
  ]

  unfoldable pub recv_data_tcp : Net → Option (Bool × SerialInBuff × Net)
  unfolding number_of
  recv_data_tcp net = elim (read_mult 5 4 net) [
    | none ↦ none
    | some (false, bytes, net') ↦ some (false, in_buff [], net')
    | some (true, bytes, net') ↦ elim (read_mult (suc (number_of bytes)) (number_of bytes) net') [
      | none ↦ none
      | some (done, data_bytes, net'') ↦ some (done, in_buff data_bytes, net'')
    ]
  ]
