-- ===== src/TcpTransfer/Stream.antt =====
-- src/mess/tcp-transfer.cc: the loops end, and over a socket that is a stream of bytes what one end sends is
-- what the other receives, however the calls cut it.
use odb.Prelude.{
  ℕ, zero, suc, ◌-◌, ◌%◌, ◌^◌, ◌≤◌, ◌<◌, ◌≡◌, ◌≢◌, refl, sym, ap, ◌∙◌, Bool, true, false, List, [],
  ◌∷◌, ◌++◌, inl, inr, ◌==◌, length-take_le, append-take-drop, take_whole, Option-cases, Bool-cases,
  length-drop, length, take, drop, Option, none, some, arith, append_nil, append_assoc,
}
use mathlib.Core.Path.{subst}
use odb.Serial.{SerialOutBuff, in_buff, bytes_of, number_of}
use odb.Serial.Raw.{length-bytes_of, number_of-bytes_of}
use odb.TcpTransfer.{Socket, read_mult, write_mult, send_data_tcp, recv_data_tcp}

-- What is documented of `read`: a positive result is at most the length that was asked for.
abbrev pub IsRead : ℕ → Option (List ℕ) → Type 0
IsRead len none = Unit {0}
IsRead len (some bytes) = (0 < length bytes) × (length bytes ≤ len)

module _ {Net : Type 0} (fd : Socket Net) where
  -- One round of each loop, and the two loops of each function.
  read_again :
      (fuel n : ℕ) (net net' : Net) (bytes more : List ℕ) (done : Bool)
      → (fd.read (suc n) net).0 ≡ some bytes
      → read_mult fd fuel (suc n - length bytes) (fd.read (suc n) net).1 ≡ some (done, more, net')
      → read_mult fd (suc fuel) (suc n) net ≡ some (done, bytes ++ more, net')
  unfolding read_mult
  read_again fuel n net net' bytes more done e r = ground (arith, e, r)

  read_nothing :
      (fuel n : ℕ) (net : Net)
      → (fd.read (suc n) net).0 ≡ none
      → read_mult fd (suc fuel) (suc n) net ≡ some (false, [], (fd.read (suc n) net).1)
  unfolding read_mult
  read_nothing fuel n net e = ground (arith, e)

  write_again :
      (fuel b : ℕ) (in_buf : List ℕ) (net : Net) (result : Option (Bool × Net))
      → 0 < (fd.send (b ∷ in_buf) net).0
      → write_mult fd fuel
          (drop (fd.send (b ∷ in_buf) net).0 (b ∷ in_buf))
          (fd.send (b ∷ in_buf) net).1
        ≡ result
      → write_mult fd (suc fuel) (b ∷ in_buf) net ≡ result
  unfolding write_mult
  write_again fuel b in_buf net result h r = ground (arith, h, r)

  write_nothing :
      (fuel b : ℕ) (in_buf : List ℕ) (net : Net)
      → (fd.send (b ∷ in_buf) net).0 ≡ 0
      → write_mult fd (suc fuel) (b ∷ in_buf) net ≡ some (false, (fd.send (b ∷ in_buf) net).1)
  unfolding write_mult
  write_nothing fuel b in_buf net h = ground (arith, h)

  both_sent :
      (os : SerialOutBuff) (net net1 net2 : Net)
      → write_mult fd 5 (bytes_of 4 (length os)) net ≡ some (true, net1)
      → write_mult fd (suc (length os)) (take (length os % 2 ^ 32) os) net1 ≡ some (true, net2)
      → send_data_tcp fd os net ≡ some (true, net2)
  unfolding send_data_tcp
  both_sent os net net1 net2 r1 r2 = rw (send_data_tcp, r1) r2

  both_read :
      (net net1 net2 : Net) (size bytes : List ℕ)
      → read_mult fd 5 4 net ≡ some (true, size, net1)
      → read_mult fd (suc (number_of size)) (number_of size) net1 ≡ some (true, bytes, net2)
      → recv_data_tcp fd net ≡ some (true, in_buff bytes, net2)
  unfolding recv_data_tcp
  both_read net net1 net2 size bytes r1 r2 = ground (arith, r1, r2)

  -- Enough fuel for the loop of `read_mult`.
  read_mult-ends :
      (fuel len : ℕ) (net : Net)
      → ((n : ℕ) (net : Net) → IsRead n (fd.read n net).0)
      → len < fuel
      → (done : Bool) × (bytes : List ℕ) × (net' : Net) × (read_mult fd fuel len net
          ≡ some (done, bytes, net'))
  unfolding read_mult
  read_mult-ends zero len net law h = absurd (omega (arith, h))
  read_mult-ends (suc fuel) zero net law h = (true, [], net, refl)
  read_mult-ends (suc fuel) (suc n) net law h =
      let ask = fd.read (suc n) net in
      elim (Option-cases ask.0) [
        | inl e ↦ (false, [], ask.1, read_nothing fuel n net e)
        | inr (bytes, e) ↦
            let fine : IsRead (suc n) (some bytes) = subst (IsRead (suc n)) e (law (suc n) net) in
            let (done, more, net', r) =
              read_mult-ends fuel (suc n - length bytes) ask.1 law
                (omega (arith, h, fine.0, fine.1)) in
            (done, bytes ++ more, net', read_again fuel n net net' bytes more done e r)
      ]

  write_mult-ends :
      (fuel : ℕ) (in_buf : List ℕ) (net : Net)
      → length in_buf < fuel
      → (done : Bool) × (net' : Net) × (write_mult fd fuel in_buf net ≡ some (done, net'))
  unfolding write_mult
  write_mult-ends zero in_buf net h = absurd (omega (arith, h))
  write_mult-ends (suc fuel) [] net h = (true, net, refl)
  write_mult-ends (suc fuel) (b ∷ in_buf) net h =
      let ask = fd.send (b ∷ in_buf) net in
      elim (Bool-cases (ask.0 == 0)) [
        | inl e ↦ (false, ask.1, write_nothing fuel b in_buf net (ground arith))
        | inr e ↦
            let left = drop ask.0 (b ∷ in_buf) in
            let some_sent : 0 < ask.0 = ground arith in
            let (done, net', r) =
              write_mult-ends fuel left ask.1
                (omega (arith, h, some_sent, length-drop ask.0 (b ∷ in_buf))) in
            (done, net', write_again fuel b in_buf net (some (done, net')) some_sent r)
      ]

  -- Both ends of a transfer come to an end, whatever the connection does, if a `read` gives no more bytes than
  -- it was asked for, as a `send` of a `Socket` takes no more than it is given: the loops have fuel enough for any size that the 4 bytes in front can say.
  pub transfers_end :
      (os : SerialOutBuff) (net : Net)
      → ((n : ℕ) (net : Net) → IsRead n (fd.read n net).0)
      → (send_data_tcp fd os net ≢ none) × (recv_data_tcp fd net ≢ none)
  unfolding send_data_tcp recv_data_tcp
  transfers_end os net law =
      let (size_sent, net1, r1) = write_mult-ends 5 (bytes_of 4 (length os)) net size_fits in
      let (all_sent, net2, r2) =
        write_mult-ends (suc (length os)) (take (length os % 2 ^ 32) os) net1 bytes_fit in
      let (size_read, bytes, net3, r3) = read_mult-ends 5 4 net law (omega arith) in
      let (all_read, more, net4, r4) =
        read_mult-ends (suc (number_of bytes)) (number_of bytes) net3 law (omega arith) in
      (
        λ none_sent. ground (arith, r1, r2, none_sent),
        λ none_read. ground (arith, r3, r4, none_read),
      )
    where
      size_fits : length (bytes_of 4 (length os)) < 5
      size_fits = omega (arith, length-bytes_of 4 (length os))

      bytes_fit : length (take (length os % 2 ^ 32) os) < suc (length os)
      bytes_fit = omega (arith, length-take_le (length os % 2 ^ 32) os)

-- A socket that is one end of a stream: a `send` appends a part of what it is given, and a `read` takes a part
-- of what there is.
pub record IsStream {Net : Type 0} (fd : Socket Net) (stream : Net → List ℕ) : Type 0 where
  pub sends :
      (b : ℕ) (bs : List ℕ) (net : Net)
      → (0 < (fd.send (b ∷ bs) net).0)
        × (stream (fd.send (b ∷ bs) net).1 ≡ stream net ++ take (fd.send (b ∷ bs) net).0 (b ∷ bs))
  pub reads :
      (n : ℕ) (net : Net)
      → stream net ≢ []
      → (bytes : List ℕ) × ((fd.read (suc n) net).0 ≡ some bytes)
        × (0 < length bytes)
        × (length bytes ≤ suc n)
        × (stream net ≡ bytes ++ stream (fd.read (suc n) net).1)

prefix_lem :
    (data_bytes rest bytes tail : List ℕ)
    → data_bytes ++ rest ≡ bytes ++ tail
    → length bytes ≤ length data_bytes
    → (bytes ++ drop (length bytes) data_bytes ≡ data_bytes)
      × (tail ≡ drop (length bytes) data_bytes ++ rest)
prefix_lem data_bytes rest [] tail e h = (refl, sym e)
prefix_lem [] rest (b ∷ bytes) tail e h = absurd (omega (arith, h))
prefix_lem (d ∷ data_bytes) rest (b ∷ bytes) tail e h =
    let more = prefix_lem data_bytes rest bytes tail (cc) (omega (arith, h)) in
    let same : b ≡ d = cc in (ground (arith, same, more.0), more.1)

module _ {Net : Type 0} (fd : Socket Net) (stream : Net → List ℕ) (law : IsStream fd stream) where
  write_mult-stream :
      (fuel : ℕ) (in_buf : List ℕ) (net : Net)
      → length in_buf < fuel
      → (net' : Net) × (write_mult fd fuel in_buf net ≡ some (true, net'))
        × (stream net' ≡ stream net ++ in_buf)
  unfolding write_mult
  write_mult-stream zero in_buf net h = absurd (omega (arith, h))
  write_mult-stream (suc fuel) [] net h = (net, refl, sym (append_nil (stream net)))
  write_mult-stream (suc fuel) (b ∷ in_buf) net h =
      let ask = fd.send (b ∷ in_buf) net in
      let (some_sent, grown) = law.sends b in_buf net in
      let left = drop ask.0 (b ∷ in_buf) in
      let (net', r, all) =
        write_mult-stream fuel left ask.1
          (omega (arith, h, some_sent, length-drop ask.0 (b ∷ in_buf))) in
      (
        net',
        write_again fd fuel b in_buf net (some (true, net')) some_sent r,
        all
            ∙ ap (λ l. l ++ left) grown
            ∙ append_assoc (stream net) (take ask.0 (b ∷ in_buf)) left
            ∙ ap (◌++◌ (stream net)) (append-take-drop ask.0 (b ∷ in_buf)),
      )

  read_mult-stream :
      (fuel len : ℕ) (net : Net) (data_bytes rest : List ℕ)
      → length data_bytes ≡ len
      → len < fuel
      → stream net ≡ data_bytes ++ rest
      → (net' : Net) × (read_mult fd fuel len net ≡ some (true, data_bytes, net'))
        × (stream net' ≡ rest)
  unfolding read_mult
  read_mult-stream zero len net data_bytes rest l h e = absurd (omega (arith, h))
  read_mult-stream (suc fuel) zero net [] rest l h e = (net, refl, e)
  read_mult-stream (suc fuel) zero net (d ∷ data_bytes) rest l h e = absurd (omega (arith, l))
  read_mult-stream (suc fuel) (suc n) net [] rest l h e = absurd (omega (arith, l))
  read_mult-stream (suc fuel) (suc n) net (d ∷ data_bytes) rest l h e =
      let ask = fd.read (suc n) net in
      let (bytes, got, some_read, fits, cut) = law.reads n net (λ none_left. cc) in
      let (front, tail) =
        prefix_lem (d ∷ data_bytes) rest bytes (stream ask.1) (sym e ∙ cut)
          (omega (arith, l, fits)) in
      let left = drop (length bytes) (d ∷ data_bytes) in
      let (net', r, all) =
        read_mult-stream fuel (suc n - length bytes) ask.1 left rest
          (omega (arith, l, length-drop (length bytes) (d ∷ data_bytes)))
          (omega (arith, h, some_read, fits)) tail in
      let again = read_again fd fuel n net net' bytes left true got r in
      (
        net',
        subst (λ l. read_mult fd (suc fuel) (suc n) net ≡ some (true, l, net')) front again,
        all,
      )

  mod_small : (n : ℕ) → n < 2 ^ 32 → n % 2 ^ 32 ≡ n
  mod_small n h = omega (arith, h)

  -- A buffer of fewer than 2 ^ 32 bytes that is sent over an empty stream is received as it was, and leaves the
  -- stream empty, however the calls of `send` and `read` cut it.
  pub recv_data_tcp-send_data_tcp :
      (os : SerialOutBuff) (net : Net)
      → length os < 2 ^ 32
      → stream net ≡ []
      → (net1 net2 : Net) × (send_data_tcp fd os net ≡ some (true, net1))
        × (recv_data_tcp fd net1 ≡ some (true, in_buff os, net2))
        × (stream net2 ≡ [])
  unfolding send_data_tcp recv_data_tcp
  recv_data_tcp-send_data_tcp os net small empty =
      let size = bytes_of 4 (length os) in
      let (net0, r0, s0) =
        write_mult-stream 5 size net (omega (arith, length-bytes_of 4 (length os))) in
      let (net1, r1, s1) = write_mult-stream (suc (length os)) os net0 (omega arith) in
      let there : stream net1 ≡ size ++ os =
        s1 ∙ ap (λ l. l ++ os) (s0 ∙ ap (λ l. l ++ size) empty) in
      let (net2, r2, s2) =
        read_mult-stream 5 4 net1 size os (length-bytes_of 4 (length os)) (omega arith) there in
      let (net3, r3, s3) =
        read_mult-stream (suc (length os)) (length os) net2 os [] refl (omega arith)
          (s2 ∙ sym (append_nil os)) in
      let whole : take (length os % 2 ^ 32) os ≡ os =
        ap (λ n. take n os) (mod_small (length os) small) ∙ take_whole os in
      let number = number_of-bytes_of 4 (length os) (omega (arith, small)) in
      let r1' =
        subst (λ l. write_mult fd (suc (length os)) l net0 ≡ some (true, net1)) (sym whole) r1 in
      let r3' = subst (λ n. read_mult fd (suc n) n net2 ≡ some (true, os, net3)) (sym number) r3 in
      (
        net1,
        net3,
        both_sent fd os net net0 net1 r0 r1',
        both_read fd net1 net2 net3 size os r2 r3',
        s3,
      )
