-- ===== src/RequestHandler/ServRecv.antt =====
-- include/odb/mess/request-handler.hh: `HandlerServRecv`, its methods with a body. The memory of `_tb` is
-- what the fields of the request hold, until the next request. It stays below 2 ^ 63 bytes.
use odb.Prelude.{ℕ, ◌*◌, ◌%◌, ◌^◌, List, replicate}
use odb.Prelude.Results.{Str, ok, ◌>>=◌}
use odb.Serial.{read, unserial_raw}
use odb.Serial.Formats.{Format}
use odb.RequestHandler.Fields.{Field, Receiving}
use odb.RequestHandler.Arrays.{
  first, read_items, add_buff, indirections, total_size, cstr_indirections,
}

module _ {R A : Type 0} (f : Format A) where
  unfoldable pub object_in : Field R A → Receiving R
  object_in item r is = do (x, is') ← f.unserialize (item.get r) is; ok (item.set x r, is')

  unfoldable pub buffer_in : Field R (List A) → (R → ℕ) → Receiving R
  unfolding read_items
  buffer_in ptr size r is = do
    (tbuf, is') ← read_items f (size r) (add_buff f (size r)) is
    ok (ptr.set tbuf r, is')

  unfoldable pub buffer_2d_in : Field R (List (List A)) → (R → ℕ) → (R → ℕ) → Receiving R
  unfolding read_items indirections
  buffer_2d_in ptr size1 size2 r is = do
    let size = size1 r * size2 r % 2 ^ 64
    (all_buf, is') ← read_items f size (add_buff f size) is
    dir_buf ← indirections (replicate (size1 r) (size2 r)) all_buf
    ok (ptr.set dir_buf r, is')

  unfoldable pub buffer_2dvar_in : Field R (List (List A)) → (R → ℕ) → (R → List ℕ) → Receiving R
  unfolding first total_size read_items indirections
  buffer_2dvar_in ptr size1 sizes2 r is = do
    sizes ← first (size1 r) (sizes2 r)
    let all_size = total_size sizes
    (all_buf, is') ← read_items f all_size (add_buff f all_size) is
    dir_buf ← indirections sizes all_buf
    ok (ptr.set dir_buf r, is')

  unfoldable pub buffer_out : Field R (List A) → (R → ℕ) → Receiving R
  buffer_out ptr size r is = ok (ptr.set (add_buff f (size r)) r, is)

  unfoldable pub buffer_2d_out : Field R (List (List A)) → (R → ℕ) → (R → ℕ) → Receiving R
  unfolding indirections
  buffer_2d_out ptr size1 size2 r is = do
    dir_buff ←
        indirections (replicate (size1 r) (size2 r)) (add_buff f (size1 r * size2 r % 2 ^ 64))
    ok (ptr.set dir_buff r, is)

  unfoldable pub buffer_2dvar_out : Field R (List (List A)) → (R → ℕ) → (R → List ℕ) → Receiving R
  unfolding first total_size indirections
  buffer_2dvar_out ptr size1 sizes2 r is = do
    sizes ← first (size1 r) (sizes2 r)
    dir_buff ← indirections sizes (add_buff f (total_size sizes))
    ok (ptr.set dir_buff r, is)

unfoldable pub buffer_2d_in_cstr : {R : Type 0} → Field R (List Str) → (R → ℕ) → Receiving R
unfolding unserial_raw read cstr_indirections
buffer_2d_in_cstr ptr size r is = do
  (total, is') ← unserial_raw 2 is
  (full_buf, is'') ← read total is'
  dir_buf ← cstr_indirections (size r) full_buf
  ok (ptr.set dir_buf r, is'')
