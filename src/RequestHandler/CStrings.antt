-- ===== src/RequestHandler/CStrings.antt =====
-- include/odb/mess/request-handler.hh: the strings of `buffer_2d_in_cstr` are found again in the bytes that
-- a client writes, each behind the 0 of the one before.
use odb.Prelude.{
  take_whole, append_assoc, append_nil, ℕ, ◌<◌, ◌≡◌, refl, ap, ◌∙◌, sym, List, [], ◌∷◌, ◌++◌,
  length, take, arith, length-append,
}
use odb.Prelude.Results.{Str, ok}
use odb.Serial.{SerialOutBuff}
use odb.Serial.Sequences.{All}
use odb.RequestHandler.Arrays.{strlen, next_cstr, cstr_indirections, cstrs_size, write_cstrs}

-- No character is 0.
abbrev pub IsCstr : Str → Type 0
IsCstr s = All (λ c. 0 < c) s

abbrev pub cstr_bytes : List Str → List ℕ
cstr_bytes [] = []
cstr_bytes (s ∷ strs) = s ++ (0 ∷ cstr_bytes strs)

pub strlen-length : (s : Str) → IsCstr s → strlen s ≡ length s
unfolding strlen
strlen-length [] h = refl
strlen-length (c ∷ s) h = ground (arith, strlen-length s h.1, h.0)

next_cstr-append : (s : Str) (rest : List ℕ) → IsCstr s → next_cstr (s ++ (0 ∷ rest)) ≡ ok (s, rest)
unfolding next_cstr
next_cstr-append [] rest h = refl
next_cstr-append (c ∷ s) rest h = ground (arith, next_cstr-append s rest h.1, h.0)

pub cstr_indirections-cstr_bytes :
    (strs : List Str)
    → All IsCstr strs
    → cstr_indirections (length strs) (cstr_bytes strs) ≡ ok strs
unfolding cstr_indirections
cstr_indirections-cstr_bytes [] h = refl
cstr_indirections-cstr_bytes (s ∷ strs) h =
    ground (arith, next_cstr-append s (cstr_bytes strs) h.0, cstr_indirections-cstr_bytes strs h.1)

pub cstrs_size-lem :
    (strs : List Str)
    → All IsCstr strs
    → cstrs_size (length strs) strs ≡ ok (length (cstr_bytes strs))
unfolding cstrs_size
cstrs_size-lem [] h = refl
cstrs_size-lem (s ∷ strs) h =
    ground
      (arith, strlen-length s h.0, cstrs_size-lem strs h.1, length-append s (0 ∷ cstr_bytes strs))

pub write_cstrs-lem :
    (strs : List Str) (os : SerialOutBuff)
    → All IsCstr strs
    → write_cstrs (length strs) strs os ≡ ok (os ++ cstr_bytes strs)
unfolding write_cstrs
write_cstrs-lem [] os h = ap ok (sym (append_nil os))
write_cstrs-lem (s ∷ strs) os h =
    let one = s ++ (0 ∷ []) in
    let wrote : take (strlen s) s ≡ s = ap (λ n. take n s) (strlen-length s h.0) ∙ take_whole s in
    rw (write_cstrs, wrote)
      (write_cstrs-lem strs (os ++ one) h.1
        ∙ ap ok (
            append_assoc os one (cstr_bytes strs)
            ∙ ap (◌++◌ os) (append_assoc s (0 ∷ []) (cstr_bytes strs))))
