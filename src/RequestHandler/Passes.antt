-- ===== src/RequestHandler/Passes.antt =====
-- include/odb/mess/request-handler.hh: what one side sends arrives on the other, for each method and for the
-- calls of a `prepare_request` one after the other.
use odb.Prelude.{ℕ, ◌^◌, ◌<◌, ◌≡◌, refl, sym, ◌∙◌, List, length, arith, length-replicate}
use odb.Prelude.Results.{ok}
use odb.Serial.{SerialOutBuff}
use odb.Serial.Raw.{Begins, at_end}
use odb.Serial.Formats.{Format, serialize_items}
use odb.Serial.Sequences.{ReadsBack, All, items-Begins}
use odb.RequestHandler.Fields.{Field, Sending, Receiving, sends_nothing, reads_nothing}
use odb.RequestHandler.Arrays.{add_buff}
use odb.RequestHandler.CliSend
use odb.RequestHandler.ServRecv
use odb.RequestHandler.{send_both, recv_both}
use odb.RequestHandler.ReadBack.{write_items-length, read_items-lem}

-- The sender's request `r` and the receiver's `s` fit each other: then the sender's buffer ends up as `after`
-- says, and the receiver reads just that, from data that go on as they like, and is left with `merge r s`.
pub record Passes {R : Type 0} (send : Sending R) (recv : Receiving R)
    (after : R → SerialOutBuff → SerialOutBuff) (fits : R → R → Type 0) (merge : R → R → R)
    : Type 0 where
  pub begins : (d os : List ℕ) (r : R) → Begins d (after r os) → Begins d os
  pub sends : (r s : R) (os : SerialOutBuff) → fits r s → send r os ≡ ok (after r os)
  pub receives :
      (r s : R) (d os : List ℕ)
      → fits r s
      → Begins d (after r os)
      → length d < 2 ^ 64
      → recv s (at_end d os) ≡ ok (merge r s, at_end d (after r os))

module _ {R : Type 0} where
  pub nothing-Passes :
      Passes {R = R} sends_nothing reads_nothing (λ r os. os) (λ r s. Unit {0}) (λ r s. s)
  nothing-Passes = record {
    begins = λ d os r b. b;
    sends = λ r s os h. refl;
    receives = λ r s d os h b small. refl;
  }

  pub both-Passes :
      {send send' : Sending R} {recv recv' : Receiving R}
      {after after' : R → SerialOutBuff → SerialOutBuff} {fits fits' : R → R → Type 0}
      {merge merge' : R → R → R}
      → Passes send recv after fits merge
      → Passes send' recv' after' fits' merge'
      → Passes
          (send_both send send')
          (recv_both recv recv')
          (λ r os. after' r (after r os))
          (λ r s. fits r s × fits' r (merge r s))
          (λ r s. merge' r (merge r s))
  both-Passes {after = after} {merge = merge} p q = record {
    begins = λ d os r b. p.begins d os r (q.begins d (after r os) r b);
    sends = λ r s os h.
        let one = p.sends r s os h.0 in
        let two = q.sends r (merge r s) (after r os) h.1 in ground (arith, one, two);
    receives = λ r s d os h b small.
        let one = p.receives r s d os h.0 (q.begins d (after r os) r b) small in
        let two = q.receives r (merge r s) d (after r os) h.1 b small in ground (arith, one, two);
  }

  -- The same, where they fit by a simpler condition.
  pub Passes-when :
      {send : Sending R} {recv : Receiving R} {after : R → SerialOutBuff → SerialOutBuff}
      {fits fits' : R → R → Type 0} {merge : R → R → R}
      → ((r s : R) → fits' r s → fits r s)
      → Passes send recv after fits merge
      → Passes send recv after fits' merge
  Passes-when imp p = record {
    begins = p.begins;
    sends = λ r s os h. p.sends r s os (imp r s h);
    receives = λ r s d os h b small. p.receives r s d os (imp r s h) b small;
  }

module _ {R A : Type 0} (f : Format A) (fits : A → Type 0) (law : ReadsBack f fits) where
  pub object-Passes :
      (item : Field R A)
      → Passes
          (CliSend.object_in f item)
          (ServRecv.object_in f item)
          (λ r os. f.serialize os (item.get r))
          (λ r s. fits (item.get r))
          (λ r s. item.set (item.get r) s)
  unfolding CliSend.object_in ServRecv.object_in
  object-Passes item = record {
    begins = λ d os r b. law.begins d os (item.get r) b;
    sends = λ r s os h. refl;
    receives = λ r s d os h b small.
        let got = law.reads d os (item.get s) (item.get r) h b small in ground (arith, got);
  }

  pub buffer-Passes :
      (ptr : Field R (List A)) (size : R → ℕ)
      → Passes
          (CliSend.buffer_in f ptr size)
          (ServRecv.buffer_in f ptr size)
          (λ r os. serialize_items f os (ptr.get r))
          (λ r s. (length (ptr.get r) ≡ size r) × (size s ≡ size r) × All fits (ptr.get r))
          (λ r s. ptr.set (ptr.get r) s)
  unfolding CliSend.buffer_in ServRecv.buffer_in
  buffer-Passes ptr size = record {
    begins = λ d os r b. items-Begins f fits law d os (ptr.get r) b;
    sends = λ r s os h. rw (sym h.0) (write_items-length f (ptr.get r) os);
    receives = λ r s d os h b small.
        let got =
          read_items-lem f fits law d os (size s) (add_buff f (size s)) (ptr.get r)
            (length-replicate (size s) f.blank) (h.0 ∙ sym h.1) h.2 b small in
        ground (arith, got);
  }
