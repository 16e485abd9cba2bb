-- ===== src/RequestHandler/ServSend.antt =====
-- include/odb/mess/request-handler.hh: `HandlerServSend`, its methods with a body.
use odb.Prelude.{ℕ, List, replicate}
use odb.Prelude.Results.{ok, ◌>>=◌}
use odb.Serial.Formats.{Format}
use odb.RequestHandler.Fields.{Field, Sending}
use odb.RequestHandler.Arrays.{first, write_items, write_rows}

module _ {R A : Type 0} (f : Format A) where
  unfoldable pub object_out : Field R A → Sending R
  object_out item r os = ok (f.serialize os (item.get r))

  unfoldable pub buffer_out : Field R (List A) → (R → ℕ) → Sending R
  unfolding write_items
  buffer_out ptr size r os = write_items f (size r) (ptr.get r) os

  unfoldable pub buffer_2d_out : Field R (List (List A)) → (R → ℕ) → (R → ℕ) → Sending R
  unfolding write_rows
  buffer_2d_out ptr size1 size2 r os = write_rows f (replicate (size1 r) (size2 r)) (ptr.get r) os

  unfoldable pub buffer_2dvar_out : Field R (List (List A)) → (R → ℕ) → (R → List ℕ) → Sending R
  unfolding first write_rows
  buffer_2dvar_out ptr size1 sizes2 r os = do
    sizes ← first (size1 r) (sizes2 r)
    write_rows f sizes (ptr.get r) os
