-- ===== src/TcpTransfer/Tests.antt =====
-- A socket that moves one byte at a time.
use odb.Prelude.{
  ℕ, zero, suc, ◌≡◌, ◌≢◌, ◌≤◌, ◌<◌, refl, true, List, [], ◌∷◌, ◌++◌, Option, none, some, length,
  arith,
}
use odb.Serial.{in_buff}
use odb.TcpTransfer.{Socket, send_data_tcp, recv_data_tcp}
use odb.TcpTransfer.Stream.{IsStream, IsRead, transfers_end, recv_data_tcp-send_data_tcp}

abbrev take_byte : List ℕ → Option (List ℕ) × List ℕ
take_byte [] = (none, [])
take_byte (b ∷ bytes) = (some (b ∷ []), bytes)

abbrev send_byte : List ℕ → List ℕ → ℕ × List ℕ
send_byte [] bytes = (0, bytes)
send_byte (b ∷ in_buf) bytes = (1, bytes ++ (b ∷ []))

send_byte-fits : (in_buf net : List ℕ) → (send_byte in_buf net).0 ≤ length in_buf
send_byte-fits [] net = omega arith
send_byte-fits (b ∷ in_buf) net = omega arith

abbrev bytewise : Socket (List ℕ)
bytewise = record {
  read = λ len bytes. take_byte bytes;
  send = send_byte;
  send_fits = send_byte-fits;
}

bytewise_reads :
    (n : ℕ) (net : List ℕ)
    → net ≢ []
    → (bytes : List ℕ) × ((bytewise.read (suc n) net).0 ≡ some bytes)
      × (0 < length bytes)
      × (length bytes ≤ suc n)
      × (net ≡ bytes ++ (bytewise.read (suc n) net).1)
bytewise_reads n [] h = absurd (h refl)
bytewise_reads n (b ∷ net) h = (b ∷ [], refl, omega arith, omega arith, refl)

bytewise-IsStream : IsStream bytewise (λ net. net)
bytewise-IsStream = record { sends = λ b bs net. (omega arith, refl); reads = bytewise_reads }

-- Where a `read` is asked for no byte, this one gives none.
abbrev careful_read : ℕ → List ℕ → Option (List ℕ) × List ℕ
careful_read zero bytes = (none, bytes)
careful_read (suc n) bytes = take_byte bytes

abbrev careful : Socket (List ℕ)
careful = record { read = careful_read; send = send_byte; send_fits = send_byte-fits }

careful-IsRead : (n : ℕ) (net : List ℕ) → IsRead n (careful.read n net).0
careful-IsRead zero net = tt
careful-IsRead (suc n) [] = tt
careful-IsRead (suc n) (b ∷ net) = (omega arith, omega arith)

transfers_end_example :
    (send_data_tcp careful (1 ∷ 2 ∷ []) [] ≢ none) × (recv_data_tcp careful [] ≢ none)
transfers_end_example = transfers_end careful (1 ∷ 2 ∷ []) [] careful-IsRead

recv_data_tcp-send_data_tcp_example :
    (net1 net2 : List ℕ) × (send_data_tcp bytewise (1 ∷ 2 ∷ []) [] ≡ some (true, net1))
    × (recv_data_tcp bytewise net1 ≡ some (true, in_buff (1 ∷ 2 ∷ []), net2))
    × (net2 ≡ [])
recv_data_tcp-send_data_tcp_example =
    recv_data_tcp-send_data_tcp bytewise (λ net. net) bytewise-IsStream (1 ∷ 2 ∷ []) []
      (omega arith) refl
