-- ===== src/RequestHandler/ArrayPasses.antt =====
-- include/odb/mess/request-handler.hh: the arrays of arrays and the C strings of a request arrive.
use odb.Prelude.{
  ℕ, ◌*◌, ◌^◌, ◌<◌, ◌≡◌, sym, List, ◌++◌, length, replicate, arith, length-replicate, ◌%◌,
}
use odb.Prelude.Results.{Str, ok}
use odb.Serial.{serial_raw}
use odb.Serial.Raw.{Begins-append, read-append, unserial_raw-serial_raw}
use odb.Serial.Formats.{Format, serialize_items}
use odb.Serial.Sequences.{ReadsBack, All, items-Begins}
use odb.RequestHandler.Fields.{Field}
use odb.RequestHandler.Arrays.{first, add_buff, indirections, total_size, cstr_indirections}
use odb.RequestHandler.CliSend
use odb.RequestHandler.ServRecv
use odb.RequestHandler.ReadBack.{
  sizes_of, joined, first-length, indirections-joined, total_size-joined, length-joined,
  write_rows-sizes_of, read_items-lem, All-joined,
}
use odb.RequestHandler.CStrings.{
  IsCstr, cstr_bytes, cstr_indirections-cstr_bytes, cstrs_size-lem, write_cstrs-lem,
}
use odb.RequestHandler.Passes.{Passes}

module _ {R A : Type 0} (f : Format A) (fits : A → Type 0) (law : ReadsBack f fits) where
  pub buffer_2d-Passes :
      (ptr : Field R (List (List A))) (size1 size2 : R → ℕ)
      → Passes
          (CliSend.buffer_2d_in f ptr size1 size2)
          (ServRecv.buffer_2d_in f ptr size1 size2)
          (λ r os. serialize_items f os (joined (ptr.get r)))
          (λ r s.
            (sizes_of (ptr.get r) ≡ replicate (size1 r) (size2 r))
            × (size1 s ≡ size1 r)
            × (size2 s ≡ size2 r)
            × (size1 r * size2 r < 2 ^ 64)
            × All (All fits) (ptr.get r))
          (λ r s. ptr.set (ptr.get r) s)
  unfolding CliSend.buffer_2d_in ServRecv.buffer_2d_in
  buffer_2d-Passes ptr size1 size2 = record {
    begins = λ d os r b. items-Begins f fits law d os (joined (ptr.get r)) b;
    sends = λ r s os h. rw (sym h.0) (write_rows-sizes_of f (ptr.get r) os);
    receives = λ r s d os h b small.
        let rows = ptr.get r in
        let len = length-joined (size1 r) (size2 r) rows h.0 in
        let size = size1 s * size2 s % 2 ^ 64 in
        let whole : size ≡ length (joined rows) = ground (arith, h.1, h.2, h.3, len) in
        let got =
          read_items-lem f fits law d os size (add_buff f size) (joined rows)
            (length-replicate size f.blank) (sym whole) (All-joined fits rows h.4) b small in
        let split : indirections (replicate (size1 s) (size2 s)) (joined rows) ≡ ok rows =
          rw (h.1, h.2, sym h.0) (indirections-joined rows) in
        ground (arith, got, split);
  }

  pub buffer_2dvar-Passes :
      (ptr : Field R (List (List A))) (size1 : R → ℕ) (sizes2 : R → List ℕ)
      → Passes
          (CliSend.buffer_2dvar_in f ptr size1 sizes2)
          (ServRecv.buffer_2dvar_in f ptr size1 sizes2)
          (λ r os. serialize_items f os (joined (ptr.get r)))
          (λ r s.
            (sizes_of (ptr.get r) ≡ sizes2 r)
            × (length (sizes2 r) ≡ size1 r)
            × (size1 s ≡ size1 r)
            × (sizes2 s ≡ sizes2 r)
            × (length (joined (ptr.get r)) < 2 ^ 64)
            × All (All fits) (ptr.get r))
          (λ r s. ptr.set (ptr.get r) s)
  unfolding CliSend.buffer_2dvar_in ServRecv.buffer_2dvar_in
  buffer_2dvar-Passes ptr size1 sizes2 = record {
    begins = λ d os r b. items-Begins f fits law d os (joined (ptr.get r)) b;
    sends = λ r s os h.
        let all = first-length (sizes2 r) in
        rw (sym h.1, all, sym h.0) (write_rows-sizes_of f (ptr.get r) os);
    receives = λ r s d os h b small.
        let rows = ptr.get r in
        let all : first (size1 s) (sizes2 s) ≡ ok (sizes2 r) =
          rw (h.2, h.3, sym h.1) (first-length (sizes2 r)) in
        let whole : total_size (sizes2 r) ≡ length (joined rows) =
          rw (sym h.0) (total_size-joined rows h.4) in
        let size = total_size (sizes2 r) in
        let got =
          read_items-lem f fits law d os size (add_buff f size) (joined rows)
            (length-replicate size f.blank) (sym whole) (All-joined fits rows h.5) b small in
        let split : indirections (sizes2 r) (joined rows) ≡ ok rows =
          rw (sym h.0) (indirections-joined rows) in
        ground (arith, all, got, split);
  }

pub cstrs-Passes :
    {R : Type 0} (ptr : Field R (List Str)) (size : R → ℕ)
    → Passes
        (CliSend.buffer_2d_in_cstr ptr size)
        (ServRecv.buffer_2d_in_cstr ptr size)
        (λ r os. serial_raw 2 os (length (cstr_bytes (ptr.get r))) ++ cstr_bytes (ptr.get r))
        (λ r s.
          (length (ptr.get r) ≡ size r)
          × (size s ≡ size r)
          × (length (cstr_bytes (ptr.get r)) < 2 ^ 16)
          × All IsCstr (ptr.get r))
        (λ r s. ptr.set (ptr.get r) s)
unfolding CliSend.buffer_2d_in_cstr ServRecv.buffer_2d_in_cstr
cstrs-Passes ptr size = record {
  begins = λ d os r b.
      let bytes = cstr_bytes (ptr.get r) in
      unfold serial_raw in
      Begins-append d os _ (Begins-append d (serial_raw 2 os (length bytes)) bytes b);
  sends = λ r s os h.
      let strs = ptr.get r in
      let total = cstrs_size-lem strs h.3 in
      let wrote = write_cstrs-lem strs (serial_raw 2 os (length (cstr_bytes strs))) h.3 in
      rw (sym h.0) (ground (arith, total, wrote));
  receives = λ r s d os h b small.
      let strs = ptr.get r in
      let bytes = cstr_bytes strs in
      let os' = serial_raw 2 os (length bytes) in
      let total =
        unserial_raw-serial_raw 2 (length bytes) d os (omega (arith, h.2))
          (Begins-append d os' bytes b) small in
      let got = read-append d os' bytes b small in
      let split : cstr_indirections (size s) bytes ≡ ok strs =
        rw (h.1, sym h.0) (cstr_indirections-cstr_bytes strs h.3) in
      ground (arith, total, got, split);
}
