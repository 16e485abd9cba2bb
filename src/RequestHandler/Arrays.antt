-- ===== src/RequestHandler/Arrays.antt =====
-- include/odb/mess/request-handler.hh: the loops over `ptr[i]` and `ptr[i][j]`. An array is a list, and a
-- step behind its end is undefined.
use odb.Prelude.{
  ℕ, zero, suc, ◌+◌, ◌%◌, ◌^◌, List, [], ◌∷◌, ◌++◌, length, take, drop, replicate, ltb, ◌==◌,
  if◌then◌else◌,
}
use odb.Prelude.Results.{Str, Result, ok, fails, Fault.{undefined}, ◌>>=◌}
use odb.Serial.{SerialOutBuff, SerialInBuff, write}
use odb.Serial.Formats.{Format}

-- `sizes2[i]`, for `i` below the count.
unfoldable pub first : ℕ → List ℕ → Result (List ℕ)
first zero sizes = ok []
first (suc n) [] = fails undefined
first (suc n) (x ∷ sizes) = do rest ← first n sizes; ok (x ∷ rest)

module _ {A : Type 0} (f : Format A) where
  -- `for (i < size) *_out << ptr[i]`.
  unfoldable pub write_items : ℕ → List A → SerialOutBuff → Result SerialOutBuff
  write_items zero ptr os = ok os
  write_items (suc n) [] os = fails undefined
  write_items (suc n) (x ∷ ptr) os = write_items n ptr (f.serialize os x)

  -- `for (i < size) *_in >> ptr[i]`.
  unfoldable pub read_items : ℕ → List A → SerialInBuff → Result (List A × SerialInBuff)
  read_items zero ptr is = ok (ptr, is)
  read_items (suc n) [] is = fails undefined
  read_items (suc n) (x ∷ ptr) is = do
    (x', is') ← f.unserialize x is
    (ptr', is'') ← read_items n ptr is'
    ok (x' ∷ ptr', is'')

  -- The same over the rows, each with its size. A row of size 0 is not looked at.
  unfoldable pub write_rows : List ℕ → List (List A) → SerialOutBuff → Result SerialOutBuff
  unfolding write_items
  write_rows [] ptr os = ok os
  write_rows (n ∷ sizes) [] os =
      let rest = write_rows sizes [] os in if n == 0 then rest else fails undefined
  write_rows (n ∷ sizes) (row ∷ ptr) os = do os' ← write_items n row os; write_rows sizes ptr os'

  unfoldable pub read_rows :
      List ℕ → List (List A) → SerialInBuff → Result (List (List A) × SerialInBuff)
  unfolding read_items
  read_rows [] ptr is = ok (ptr, is)
  read_rows (n ∷ sizes) [] is =
      let rest = read_rows sizes [] is in if n == 0 then rest else fails undefined
  read_rows (n ∷ sizes) (row ∷ ptr) is = do
    (row', is') ← read_items n row is
    (ptr', is'') ← read_rows sizes ptr is'
    ok (row' ∷ ptr', is'')

  -- `TmpBuffHolder::add_buff`: new items. The memory is granted.
  abbrev pub add_buff : ℕ → List A
  add_buff size = replicate size f.blank

-- The indirections: each points into the one big buffer, behind the one before. A pointer behind the end
-- of that buffer is undefined.
unfoldable pub indirections : {A : Type 0} → List ℕ → List A → Result (List (List A))
indirections [] buf = ok []
indirections (n ∷ sizes) buf = do
  rows ← indirections sizes (drop n buf)
  if ltb (length buf) n then fails undefined else ok (take n buf ∷ rows)

-- `all_size += sizes2[i]`, in 64 bits.
unfoldable pub total_size : List ℕ → ℕ
total_size [] = 0
total_size (n ∷ sizes) = (n + total_size sizes) % 2 ^ 64

-- `strlen`.
unfoldable pub strlen : Str → ℕ
strlen [] = 0
strlen (c ∷ s) = let rest = strlen s in if c == 0 then 0 else suc rest

-- The characters up to the 0 that ends them, and what follows it.
unfoldable pub next_cstr : List ℕ → Result (Str × List ℕ)
next_cstr [] = fails undefined
next_cstr (c ∷ buf) =
    let rest = next_cstr buf in
    if c == 0 then ok ([], buf) else (rest >>= λ (s, after). ok (c ∷ s, after))

-- `dir_buf[i] = str; str += strlen(str) + 1`.
unfoldable pub cstr_indirections : ℕ → List ℕ → Result (List Str)
unfolding next_cstr
cstr_indirections zero buf = ok []
cstr_indirections (suc n) buf = do
  (s, after) ← next_cstr buf
  strs ← cstr_indirections n after
  ok (s ∷ strs)

-- The two loops of `buffer_2d_in_cstr` of a client: the size of all strings, and the strings.
unfoldable pub cstrs_size : ℕ → List Str → Result ℕ
unfolding strlen
cstrs_size zero ptr = ok 0
cstrs_size (suc n) [] = fails undefined
cstrs_size (suc n) (s ∷ ptr) = do total ← cstrs_size n ptr; ok (strlen s + 1 + total)

unfoldable pub write_cstrs : ℕ → List Str → SerialOutBuff → Result SerialOutBuff
unfolding strlen
write_cstrs zero ptr os = ok os
write_cstrs (suc n) [] os = fails undefined
write_cstrs (suc n) (s ∷ ptr) os = write_cstrs n ptr (write os (take (strlen s) s ++ (0 ∷ [])))
