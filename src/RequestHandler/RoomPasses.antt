-- ===== src/RequestHandler/RoomPasses.antt =====
-- include/odb/mess/request-handler.hh: nothing is sent for an array that the server fills, which makes room
-- for it.
use odb.Prelude.{
  ℕ, zero, suc, ◌+◌, ◌^◌, ◌<◌, ◌≡◌, refl, sym, ap, ◌∙◌, List, [], ◌∷◌, ◌++◌, length, replicate,
  arith, length-replicate,
}
use odb.Prelude.Results.{ok}
use odb.Serial.Formats.{Format}
use odb.RequestHandler.Fields.{Field, sends_nothing}
use odb.RequestHandler.Arrays.{first, indirections, total_size}
use odb.RequestHandler.ServRecv
use odb.RequestHandler.ReadBack.{sizes_of, joined, first-length, indirections-joined}
use odb.RequestHandler.Passes.{Passes}

abbrev pub sum : List ℕ → ℕ
sum [] = 0
sum (n ∷ sizes) = n + sum sizes

module _ {A : Type 0} (a : A) where
  abbrev pub rooms : List ℕ → List (List A)
  rooms [] = []
  rooms (n ∷ sizes) = replicate n a ∷ rooms sizes

  replicate-add : (n k : ℕ) → replicate (n + k) a ≡ replicate n a ++ replicate k a
  replicate-add zero k = ap (λ n. replicate n a) (omega arith)
  replicate-add (suc n) k =
      let e : suc n + k ≡ suc (n + k) = omega arith in rw e (ap (◌∷◌ a) (replicate-add n k))

  pub joined-rooms : (sizes : List ℕ) → joined (rooms sizes) ≡ replicate (sum sizes) a
  joined-rooms [] = refl
  joined-rooms (n ∷ sizes) =
      ap (◌++◌ (replicate n a)) (joined-rooms sizes) ∙ sym (replicate-add n (sum sizes))

  pub sizes_of-rooms : (sizes : List ℕ) → sizes_of (rooms sizes) ≡ sizes
  sizes_of-rooms [] = refl
  sizes_of-rooms (n ∷ sizes) = ground (arith, length-replicate n a, sizes_of-rooms sizes)

  indirections-rooms :
      (sizes : List ℕ) → indirections sizes (replicate (sum sizes) a) ≡ ok (rooms sizes)
  indirections-rooms sizes =
      ap (λ l. indirections l (replicate (sum sizes) a)) (sym (sizes_of-rooms sizes))
      ∙ ap (indirections (sizes_of (rooms sizes))) (sym (joined-rooms sizes))
      ∙ indirections-joined (rooms sizes)

pub total_size-sum : (sizes : List ℕ) → sum sizes < 2 ^ 64 → total_size sizes ≡ sum sizes
unfolding total_size
total_size-sum [] h = refl
total_size-sum (n ∷ sizes) h = let rest = total_size-sum sizes (omega arith) in omega (arith, rest)

module _ {R A : Type 0} (f : Format A) where
  pub buffer_room-Passes :
      (ptr : Field R (List A)) (size : R → ℕ)
      → Passes sends_nothing
          (ServRecv.buffer_out f ptr size)
          (λ r os. os)
          (λ r s. Unit {0})
          (λ r s. ptr.set (replicate (size s) f.blank) s)
  unfolding ServRecv.buffer_out
  buffer_room-Passes ptr size = record {
    begins = λ d os r b. b;
    sends = λ r s os h. refl;
    receives = λ r s d os h b small. refl;
  }

  pub buffer_2dvar_room-Passes :
      (ptr : Field R (List (List A))) (size1 : R → ℕ) (sizes2 : R → List ℕ)
      → Passes sends_nothing
          (ServRecv.buffer_2dvar_out f ptr size1 sizes2)
          (λ r os. os)
          (λ r s. (length (sizes2 s) ≡ size1 s) × (sum (sizes2 s) < 2 ^ 64))
          (λ r s. ptr.set (rooms f.blank (sizes2 s)) s)
  unfolding ServRecv.buffer_2dvar_out
  buffer_2dvar_room-Passes ptr size1 sizes2 = record {
    begins = λ d os r b. b;
    sends = λ r s os h. refl;
    receives = λ r s d os h b small.
        let sizes = sizes2 s in
        let all : first (size1 s) sizes ≡ ok sizes = rw (sym h.0) (first-length sizes) in
        let whole = total_size-sum sizes h.1 in
        let split = indirections-rooms f.blank sizes in rw (all, whole, split) refl;
  }
