-- ===== src/RequestHandler/ReadBack.antt =====
-- include/odb/mess/request-handler.hh: the arrays that one side reads are those that the other has
-- written.
use odb.Prelude.{
  ℕ, zero, suc, ◌*◌, ◌^◌, ◌<◌, ◌≡◌, refl, ap, ◌∙◌, List, [], ◌∷◌, ◌++◌, length, replicate, arith,
  length-append, take-append_length, drop-append_length,
}
use odb.Prelude.Results.{ok}
use odb.Serial.{SerialOutBuff}
use odb.Serial.Raw.{Begins, at_end}
use odb.Serial.Formats.{Format, serialize_items}
use odb.Serial.Sequences.{ReadsBack, All, items-Begins}
use odb.RequestHandler.Arrays.{
  first, write_items, read_items, write_rows, read_rows, indirections, total_size,
}

abbrev pub sizes_of : {A : Type 0} → List (List A) → List ℕ
sizes_of [] = []
sizes_of (row ∷ rows) = length row ∷ sizes_of rows

abbrev pub joined : {A : Type 0} → List (List A) → List A
joined [] = []
joined (row ∷ rows) = row ++ joined rows

pub first-length : (sizes : List ℕ) → first (length sizes) sizes ≡ ok sizes
unfolding first
first-length [] = refl
first-length (n ∷ sizes) = ground (arith, first-length sizes)

pub indirections-joined :
    {A : Type 0} (rows : List (List A)) → indirections (sizes_of rows) (joined rows) ≡ ok rows
unfolding indirections
indirections-joined [] = refl
indirections-joined (row ∷ rows) = ground (
  arith,
  indirections-joined rows,
  take-append_length row (joined rows),
  drop-append_length row (joined rows),
  length-append row (joined rows),
)

pub total_size-joined :
    {A : Type 0} (rows : List (List A))
    → length (joined rows) < 2 ^ 64
    → total_size (sizes_of rows) ≡ length (joined rows)
unfolding total_size
total_size-joined [] h = refl
total_size-joined (row ∷ rows) h =
    let len = length-append row (joined rows) in
    let rest = total_size-joined rows (omega (arith, len)) in omega (arith, rest, len)

-- A matrix of `size1` rows of `size2` items.
pub length-joined :
    {A : Type 0} (size1 size2 : ℕ) (rows : List (List A))
    → sizes_of rows ≡ replicate size1 size2
    → length (joined rows) ≡ size1 * size2
length-joined zero size2 [] e = omega arith
length-joined zero size2 (row ∷ rows) e = absurd (omega (arith, ap length e))
length-joined (suc n) size2 [] e = absurd (omega (arith, ap length e))
length-joined (suc n) size2 (row ∷ rows) e =
    let rest = length-joined n size2 rows (cc) in
    let here : length row ≡ size2 = cc in omega (arith, here, rest, length-append row (joined rows))

module _ {A : Type 0} (f : Format A) where
  pub write_items-length :
      (v : List A) (os : SerialOutBuff)
      → write_items f (length v) v os ≡ ok (serialize_items f os v)
  unfolding write_items serialize_items
  write_items-length [] os = refl
  write_items-length (x ∷ v) os = write_items-length v (f.serialize os x)

  pub serialize_items-append :
      (os : SerialOutBuff) (v w : List A)
      → serialize_items f os (v ++ w) ≡ serialize_items f (serialize_items f os v) w
  unfolding serialize_items
  serialize_items-append os [] w = refl
  serialize_items-append os (x ∷ v) w = serialize_items-append (f.serialize os x) v w

  -- The rows are written one behind the other.
  pub write_rows-sizes_of :
      (rows : List (List A)) (os : SerialOutBuff)
      → write_rows f (sizes_of rows) rows os ≡ ok (serialize_items f os (joined rows))
  unfolding write_rows serialize_items
  write_rows-sizes_of [] os = refl
  write_rows-sizes_of (row ∷ rows) os = ground (
    arith,
    write_items-length row os,
    write_rows-sizes_of rows (serialize_items f os row),
    serialize_items-append os row (joined rows),
  )

module _ {A : Type 0} (f : Format A) (fits : A → Type 0) (law : ReadsBack f fits) where
  pub read_items-lem :
      (d os : List ℕ) (n : ℕ) (old v : List A)
      → length old ≡ n
      → length v ≡ n
      → All fits v
      → Begins d (serialize_items f os v)
      → length d < 2 ^ 64
      → read_items f n old (at_end d os) ≡ ok (v, at_end d (serialize_items f os v))
  unfolding read_items serialize_items
  read_items-lem d os zero [] [] o e h b small = refl
  read_items-lem d os zero [] (x ∷ v) o e h b small = absurd (omega (arith, e))
  read_items-lem d os zero (y ∷ old) v o e h b small = absurd (omega (arith, o))
  read_items-lem d os (suc n) [] v o e h b small = absurd (omega (arith, o))
  read_items-lem d os (suc n) (y ∷ old) [] o e h b small = absurd (omega (arith, e))
  read_items-lem d os (suc n) (y ∷ old) (x ∷ v) o e h b small =
      let head = law.reads d os y x h.0 (items-Begins f fits law d (f.serialize os x) v b) small in
      let rest =
        read_items-lem d (f.serialize os x) n old v (omega (arith, o)) (omega (arith, e)) h.1 b
          small in
      ground (arith, head, rest)

  pub read_rows-lem :
      (d os : List ℕ) (sizes : List ℕ) (old rows : List (List A))
      → sizes_of old ≡ sizes
      → sizes_of rows ≡ sizes
      → All (All fits) rows
      → Begins d (serialize_items f os (joined rows))
      → length d < 2 ^ 64
      → read_rows f sizes old (at_end d os)
        ≡ ok (rows, at_end d (serialize_items f os (joined rows)))
  unfolding read_rows serialize_items
  read_rows-lem d os [] [] [] o e h b small = refl
  read_rows-lem d os [] [] (x ∷ v) o e h b small = absurd (omega (arith, ap length e))
  read_rows-lem d os [] (y ∷ old) v o e h b small = absurd (omega (arith, ap length o))
  read_rows-lem d os (n ∷ sizes) [] v o e h b small = absurd (omega (arith, ap length o))
  read_rows-lem d os (n ∷ sizes) (y ∷ old) [] o e h b small = absurd (omega (arith, ap length e))
  read_rows-lem d os (n ∷ sizes) (y ∷ old) (row ∷ rows) o e h b small =
      let os' = serialize_items f os row in
      let b' : Begins d (serialize_items f os' (joined rows)) =
        (b.0, b.1 ∙ ap (λ l. l ++ b.0) (serialize_items-append f os row (joined rows))) in
      let head =
        read_items-lem d os n y row (cc) (cc) h.0 (items-Begins f fits law d os' (joined rows) b')
          small in
      let rest = read_rows-lem d os' sizes old rows (cc) (cc) h.1 b' small in
      ground (arith, head, rest, serialize_items-append f os row (joined rows))

-- All items of the rows are items of some row.
pub All-joined :
    {A : Type 0} (fits : A → Type 0) (rows : List (List A))
    → All (All fits) rows
    → All fits (joined rows)
All-joined fits [] h = tt
All-joined fits ([] ∷ rows) h = All-joined fits rows h.1
All-joined fits ((x ∷ row) ∷ rows) h = (h.0.0, All-joined fits (row ∷ rows) (h.0.1, h.1))
