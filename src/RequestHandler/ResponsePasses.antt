-- ===== src/RequestHandler/ResponsePasses.antt =====
-- include/odb/mess/request-handler.hh: what a server answers arrives in the arrays and the objects of the
-- client.
use odb.Prelude.{ℕ, ◌≡◌, refl, sym, ◌∙◌, List, length, replicate, arith}
use odb.Prelude.Results.{ok}
use odb.Serial.Formats.{Format, serialize_items}
use odb.Serial.Sequences.{ReadsBack, All, items-Begins}
use odb.RequestHandler.Fields.{Field}
use odb.RequestHandler.Arrays.{first}
use odb.RequestHandler.ServSend
use odb.RequestHandler.CliRecv
use odb.RequestHandler.ReadBack.{
  sizes_of, joined, first-length, write_items-length, write_rows-sizes_of, read_items-lem,
  read_rows-lem,
}
use odb.RequestHandler.Passes.{Passes}

module _ {R A : Type 0} (f : Format A) (fits : A → Type 0) (law : ReadsBack f fits) where
  pub object_out-Passes :
      (item : Field R A)
      → Passes
          (ServSend.object_out f item)
          (CliRecv.object_out f item)
          (λ r os. f.serialize os (item.get r))
          (λ r s. fits (item.get r))
          (λ r s. item.set (item.get r) s)
  unfolding ServSend.object_out CliRecv.object_out
  object_out-Passes item = record {
    begins = λ d os r b. law.begins d os (item.get r) b;
    sends = λ r s os h. refl;
    receives = λ r s d os h b small.
        let got = law.reads d os (item.get s) (item.get r) h b small in ground (arith, got);
  }

  pub buffer_out-Passes :
      (ptr : Field R (List A)) (size : R → ℕ)
      → Passes
          (ServSend.buffer_out f ptr size)
          (CliRecv.buffer_out f ptr size)
          (λ r os. serialize_items f os (ptr.get r))
          (λ r s.
            (length (ptr.get r) ≡ size r)
            × (length (ptr.get s) ≡ size s)
            × (size s ≡ size r)
            × All fits (ptr.get r))
          (λ r s. ptr.set (ptr.get r) s)
  unfolding ServSend.buffer_out CliRecv.buffer_out
  buffer_out-Passes ptr size = record {
    begins = λ d os r b. items-Begins f fits law d os (ptr.get r) b;
    sends = λ r s os h. rw (sym h.0) (write_items-length f (ptr.get r) os);
    receives = λ r s d os h b small.
        let got =
          read_items-lem f fits law d os (size s) (ptr.get s) (ptr.get r) h.1 (h.0 ∙ sym h.2) h.3 b
            small in
        ground (arith, got);
  }

  pub buffer_2d_out-Passes :
      (ptr : Field R (List (List A))) (size1 size2 : R → ℕ)
      → Passes
          (ServSend.buffer_2d_out f ptr size1 size2)
          (CliRecv.buffer_2d_out f ptr size1 size2)
          (λ r os. serialize_items f os (joined (ptr.get r)))
          (λ r s.
            (sizes_of (ptr.get r) ≡ replicate (size1 r) (size2 r))
            × (sizes_of (ptr.get s) ≡ replicate (size1 s) (size2 s))
            × (size1 s ≡ size1 r)
            × (size2 s ≡ size2 r)
            × All (All fits) (ptr.get r))
          (λ r s. ptr.set (ptr.get r) s)
  unfolding ServSend.buffer_2d_out CliRecv.buffer_2d_out
  buffer_2d_out-Passes ptr size1 size2 = record {
    begins = λ d os r b. items-Begins f fits law d os (joined (ptr.get r)) b;
    sends = λ r s os h. rw (sym h.0) (write_rows-sizes_of f (ptr.get r) os);
    receives = λ r s d os h b small.
        let sizes = replicate (size1 s) (size2 s) in
        let same : sizes_of (ptr.get r) ≡ sizes = rw (h.2, h.3) h.0 in
        let got =
          read_rows-lem f fits law d os sizes (ptr.get s) (ptr.get r) h.1 same h.4 b small in
        ground (arith, got);
  }

  pub buffer_2dvar_out-Passes :
      (ptr : Field R (List (List A))) (size1 : R → ℕ) (sizes2 : R → List ℕ)
      → Passes
          (ServSend.buffer_2dvar_out f ptr size1 sizes2)
          (CliRecv.buffer_2dvar_out f ptr size1 sizes2)
          (λ r os. serialize_items f os (joined (ptr.get r)))
          (λ r s.
            (sizes_of (ptr.get r) ≡ sizes2 r)
            × (length (sizes2 r) ≡ size1 r)
            × (sizes_of (ptr.get s) ≡ sizes2 s)
            × (size1 s ≡ size1 r)
            × (sizes2 s ≡ sizes2 r)
            × All (All fits) (ptr.get r))
          (λ r s. ptr.set (ptr.get r) s)
  unfolding ServSend.buffer_2dvar_out CliRecv.buffer_2dvar_out
  buffer_2dvar_out-Passes ptr size1 sizes2 = record {
    begins = λ d os r b. items-Begins f fits law d os (joined (ptr.get r)) b;
    sends = λ r s os h.
        let all = first-length (sizes2 r) in
        rw (sym h.1, all, sym h.0) (write_rows-sizes_of f (ptr.get r) os);
    receives = λ r s d os h b small.
        let all : first (size1 s) (sizes2 s) ≡ ok (sizes2 s) =
          rw (h.3, h.4, sym h.1) (first-length (sizes2 r)) in
        let same : sizes_of (ptr.get r) ≡ sizes2 s = h.0 ∙ sym h.4 in
        let got =
          read_rows-lem f fits law d os (sizes2 s) (ptr.get s) (ptr.get r) h.2 same h.5 b small in
        ground (arith, all, got);
  }
