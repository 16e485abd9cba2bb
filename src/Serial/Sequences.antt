-- ===== src/Serial/Sequences.antt =====
-- What it means that a format reads back what it has written, and that the strings, the vectors and the
-- bytes do.
use odb.Prelude.{
  ℕ, ◌-◌, ◌^◌, ◌<◌, ◌≡◌, refl, ap, List, [], ◌∷◌, ◌++◌, length, take, replicate, arith,
  length-append, length-replicate, length-take,
}
use odb.Prelude.Results.{ok}
use odb.Serial.{serial_raw}
use odb.Serial.Raw.{limit, Begins, at_end, Begins-append, read-append, unserial_raw-serial_raw}
use odb.Serial.Formats.{
  Format, raw, string, serialize_string, unserialize_string, serialize_items, unserialize_items,
  resized, serialize_vector, unserialize_vector, vector, byte_format,
}

-- A format reads back the items that fit: from data that go on as they like, over any old object, and up
-- to the end of what was written.
pub record ReadsBack {A : Type 0} (f : Format A) (fits : A → Type 0) : Type 0 where
  pub begins : (d os : List ℕ) (a : A) → Begins d (f.serialize os a) → Begins d os
  pub reads :
      (d os : List ℕ) (old a : A)
      → fits a
      → Begins d (f.serialize os a)
      → length d < 2 ^ 64
      → f.unserialize old (at_end d os) ≡ ok (a, at_end d (f.serialize os a))

abbrev pub Always : {A : Type 0} → A → Type 0
Always a = Unit {0}

pub raw-ReadsBack : (w : ℕ) → ReadsBack (raw w) (λ x. x < limit w)
unfolding serial_raw
raw-ReadsBack w = record {
  begins = λ d os x. Begins-append d os _;
  reads = λ d os old x h b small. unserial_raw-serial_raw w x d os h b small;
}

pub string-ReadsBack : ReadsBack string Always
unfolding serialize_string unserialize_string
string-ReadsBack = record {
  begins = λ d os s b. (raw-ReadsBack 8).begins d os (length s) (Begins-append d _ s b);
  reads = λ d os old s h b small.
      let b8 = Begins-append d _ s b in
      let fit : length s < limit 8 = omega (
        arith,
        ap length b.1,
        length-append (serial_raw 8 os (length s) ++ s) b.0,
        length-append (serial_raw 8 os (length s)) s,
      ) in
      let size = (raw-ReadsBack 8).reads d os 0 (length s) fit b8 small in
      let bytes = read-append d (serial_raw 8 os (length s)) s b small in
      ground (arith, size, bytes);
}

-- A byte of an enumeration.
pub byte_format-ReadsBack :
    {A : Type 0} (blank : A) (to_byte : A → ℕ) (of_byte : ℕ → A)
    → ReadsBack
        (byte_format blank to_byte of_byte)
        (λ a. (to_byte a < 256) × (of_byte (to_byte a) ≡ a))
unfolding byte_format
byte_format-ReadsBack blank to_byte of_byte = record {
  begins = λ d os a b. (raw-ReadsBack 1).begins d os (to_byte a) b;
  reads = λ d os old a h b small.
      let byte = (raw-ReadsBack 1).reads d os 0 (to_byte a) (omega (arith, h.0)) b small in
      ground (arith, byte, h.1);
}

-- All items of a vector fit.
abbrev pub All : {A : Type 0} → (A → Type 0) → List A → Type 0
All fits [] = Unit {0}
All fits (x ∷ v) = fits x × All fits v

module _ {A : Type 0} (f : Format A) (fits : A → Type 0) (law : ReadsBack f fits) where
  pub items-Begins : (d os : List ℕ) (v : List A) → Begins d (serialize_items f os v) → Begins d os
  unfolding serialize_items
  items-Begins d os [] b = b
  items-Begins d os (x ∷ v) b = law.begins d os x (items-Begins d (f.serialize os x) v b)

  items-reads :
      (d os : List ℕ) (old v : List A)
      → length old ≡ length v
      → All fits v
      → Begins d (serialize_items f os v)
      → length d < 2 ^ 64
      → unserialize_items f old (at_end d os) ≡ ok (v, at_end d (serialize_items f os v))
  unfolding serialize_items unserialize_items
  items-reads d os [] [] e h b small = refl
  items-reads d os [] (x ∷ v) e h b small = absurd (omega (arith, e))
  items-reads d os (y ∷ old) [] e h b small = absurd (omega (arith, e))
  items-reads d os (y ∷ old) (x ∷ v) e h b small =
      let first = law.reads d os y x h.0 (items-Begins d (f.serialize os x) v b) small in
      let rest = items-reads d (f.serialize os x) old v (omega (arith, e)) h.1 b small in
      ground (arith, first, rest)

  length-resized : (n : ℕ) (v : List A) → length (resized f n v) ≡ n
  length-resized n v = omega (
    arith,
    length-append (take n v) (replicate (n - length v) f.blank),
    length-replicate (n - length v) f.blank,
    length-take n v,
  )

  pub vector-ReadsBack : ReadsBack (vector f) (λ v. (length v < 2 ^ 64) × All fits v)
  unfolding serialize_vector unserialize_vector
  vector-ReadsBack = record {
    begins = λ d os v b. (raw-ReadsBack 8).begins d os (length v) (items-Begins d _ v b);
    reads = λ d os old v h b small.
        let size =
          (raw-ReadsBack 8).reads d os 0 (length v) (omega (arith, h.0)) (items-Begins d _ v b)
            small in
        let items =
          items-reads d (serial_raw 8 os (length v)) (resized f (length v) old) v
            (length-resized (length v) old) h.1 b small in
        ground (arith, size, items);
  }
