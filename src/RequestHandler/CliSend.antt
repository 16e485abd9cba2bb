-- ===== src/RequestHandler/CliSend.antt =====
-- include/odb/mess/request-handler.hh: `HandlerCliSend`, its methods with a body.
use odb.Prelude.{ℕ, List, replicate}
use odb.Prelude.Results.{Str, ok, ◌>>=◌}
use odb.Serial.{serial_raw}
use odb.Serial.Formats.{Format}
use odb.RequestHandler.Fields.{Field, Sending}
use odb.RequestHandler.Arrays.{first, write_items, write_rows, cstrs_size, write_cstrs}

module _ {R A : Type 0} (f : Format A) where
  unfoldable pub object_in : Field R A → Sending R
  object_in item r os = ok (f.serialize os (item.get r))

  unfoldable pub buffer_in : Field R (List A) → (R → ℕ) → Sending R
  unfolding write_items
  buffer_in ptr size r os = write_items f (size r) (ptr.get r) os

  unfoldable pub buffer_2d_in : Field R (List (List A)) → (R → ℕ) → (R → ℕ) → Sending R
  unfolding write_rows
  buffer_2d_in ptr size1 size2 r os = write_rows f (replicate (size1 r) (size2 r)) (ptr.get r) os

  unfoldable pub buffer_2dvar_in : Field R (List (List A)) → (R → ℕ) → (R → List ℕ) → Sending R
  unfolding first write_rows
  buffer_2dvar_in ptr size1 sizes2 r os = do
    sizes ← first (size1 r) (sizes2 r)
    write_rows f sizes (ptr.get r) os

-- The size is written in 16 bits.
unfoldable pub buffer_2d_in_cstr : {R : Type 0} → Field R (List Str) → (R → ℕ) → Sending R
unfolding cstrs_size serial_raw write_cstrs
buffer_2d_in_cstr ptr size r os = do
  total ← cstrs_size (size r) (ptr.get r)
  write_cstrs (size r) (ptr.get r) (serial_raw 2 os total)
