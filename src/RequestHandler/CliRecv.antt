-- ===== src/RequestHandler/CliRecv.antt =====
-- include/odb/mess/request-handler.hh: `HandlerCliRecv`, its methods with a body.
use odb.Prelude.{ℕ, List, replicate}
use odb.Prelude.Results.{ok, ◌>>=◌}
use odb.Serial.Formats.{Format}
use odb.RequestHandler.Fields.{Field, Receiving}
use odb.RequestHandler.Arrays.{first, read_items, read_rows}

module _ {R A : Type 0} (f : Format A) where
  unfoldable pub object_out : Field R A → Receiving R
  object_out item r is = do (x, is') ← f.unserialize (item.get r) is; ok (item.set x r, is')

  unfoldable pub buffer_out : Field R (List A) → (R → ℕ) → Receiving R
  unfolding read_items
  buffer_out ptr size r is = do
    (items, is') ← read_items f (size r) (ptr.get r) is
    ok (ptr.set items r, is')

  unfoldable pub buffer_2d_out : Field R (List (List A)) → (R → ℕ) → (R → ℕ) → Receiving R
  unfolding read_rows
  buffer_2d_out ptr size1 size2 r is = do
    (rows, is') ← read_rows f (replicate (size1 r) (size2 r)) (ptr.get r) is
    ok (ptr.set rows r, is')

  unfoldable pub buffer_2dvar_out : Field R (List (List A)) → (R → ℕ) → (R → List ℕ) → Receiving R
  unfolding first read_rows
  buffer_2dvar_out ptr size1 sizes2 r is = do
    sizes ← first (size1 r) (sizes2 r)
    (rows, is') ← read_rows f sizes (ptr.get r) is
    ok (ptr.set rows r, is')
