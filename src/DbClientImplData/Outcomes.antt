-- ===== src/DbClientImplData/Outcomes.antt =====
-- src/client/db-client-impl-data.cc with src/server/data-client-handler.cc: how the outcome of a call of
-- `DBClientImplVMSide` travels back to the client, and the sizes of what travels.
use odb.Prelude.{
  ℕ, suc, ◌+◌, ◌*◌, ◌^◌, ◌<◌, ◌≤◌, ◌≡◌, refl, List, [], ◌∷◌, length, arith, length-append,
}
use odb.Prelude.Results.{Str, Result, ok, throws, fails}
use odb.Types.{RegInfos, DbClientUpdate}
use odb.VmApi.{VmApi}
use odb.Serial.{SerialOutBuff, SerialInBuff, bytes_of, serial_raw}
use odb.Serial.Raw.{length-bytes_of}
use odb.Serial.Formats.{byte_format, raw, serialize_items, serialize_string}
use odb.Serial.ReqTypes.{ReqType, req_type, req_type_byte}
use odb.RequestHandler.{Preparation}
use odb.RequestHandler.Arrays.{strlen}
use odb.RequestHandler.Passes.{Passes}
use odb.Debugger.{Debugger, Method, pure, lift, ◌>>=◌}
use odb.DataClientHandler.{run_case, serve, what}
use odb.DbClientImplData.{send_req, then_do}
use odb.DbClientImplData
use odb.DbClientImplData.Loopback.{
  idle, seen, loopback, IsRequest, err_bytes, Arrives, send_req-seen,
}

pub length-serial_raw :
    (w : ℕ) (os : SerialOutBuff) (x : ℕ) → length (serial_raw w os x) ≡ length os + w
unfolding serial_raw
length-serial_raw w os x = omega (arith, length-append os (bytes_of w x), length-bytes_of w x)

pub length-serialize_items :
    (w : ℕ) (os : SerialOutBuff) (xs : List ℕ)
    → length (serialize_items (raw w) os xs) ≡ length os + w * length xs
unfolding serialize_items
length-serialize_items w os [] = omega arith
length-serialize_items w os (x ∷ xs) =
    let here = length-serial_raw w os x in
    let rest = length-serialize_items w (serial_raw w os x) xs in
    let mul : w * suc (length xs) ≡ w + w * length xs = grind arith in
    omega (arith, here, rest, mul)

length-what : (e : Str) → length (what e) ≤ length e
unfolding strlen
length-what [] = omega arith
length-what (c ∷ e) = ground (arith, length-what e)

length-err_bytes : (e : Str) → length e < 2 ^ 63 → length (err_bytes e) < 2 ^ 64
unfolding serialize_string byte_format
length-err_bytes e h =
    let body = serial_raw 8 (req_type.serialize [] ReqType.err) (length (what e)) in
    omega (
      arith,
      h,
      length-what e,
      length-append body (what e),
      length-serial_raw 8 (req_type.serialize [] ReqType.err) (length (what e)),
    )

pub length-req_type : (ty : ReqType) → length (req_type.serialize [] ty) ≡ 1
unfolding byte_format
length-req_type ty = length-serial_raw 1 [] (req_type_byte ty)

-- The outcome of a call on the server: a value for which `P` holds, or an error whose message is no longer
-- than a buffer can be.
abbrev pub Reportable : {Vm A : Type 0} → (A → Type 0) → Result A × Debugger Vm → Type 0
Reportable P (ok a, d) = P a
Reportable P (throws e, d) = length e < 2 ^ 63
Reportable P (fails x, d) = Unit {0}

pub Reportable-map :
    {Vm A : Type 0} {P Q : A → Type 0} (w : Result A × Debugger Vm)
    → ((a : A) → P a → Q a)
    → Reportable P w
    → Reportable Q w
Reportable-map (ok a, d) imp h = imp a h
Reportable-map (throws e, d) imp h = h
Reportable-map (fails x, d) imp h = tt

abbrev pub mapped : {Vm A B : Type 0} → (A → B) → Result A × Debugger Vm → Result B × Debugger Vm
mapped g (ok a, d) = (ok (g a), d)
mapped g (throws e, d) = (throws e, d)
mapped g (fails x, d) = (fails x, d)

pub mapped-bind :
    {Vm A B : Type 0} (m : Method Vm A) (g : A → B) (d : Debugger Vm)
    → (m >>= λ a. pure (g a)) d ≡ mapped g (m d)
mapped-bind m g d = ground arith

-- The same, where a function on the value cannot fail.
pub mapped-lift :
    {Vm A B : Type 0} (P : A → Type 0) (m : Method Vm A) (f : A → Result A) (g : A → B)
    (d : Debugger Vm)
    → ((a : A) → P a → f a ≡ ok a)
    → Reportable P (m d)
    → (m >>= λ a. lift (f a) >>= λ b. pure (g b)) d ≡ mapped g (m d)
mapped-lift {Vm} {A} {B} P m f g d sure fine = split (m d) fine
  where
    split :
        (w : Result A × Debugger Vm)
        → Reportable P w
        → ((λ (d : Debugger Vm). w) >>= λ a. lift (f a) >>= λ b. pure (g b)) d ≡ mapped g w
    split (ok a, d') h = rw (sure a h) refl
    split (throws e, d') h = refl
    split (fails x, d') h = refl

seen-then_do :
    {Vm A R B : Type 0} (f : R → R) (g : A → R) (h : R → B) (w : Result A × Debugger Vm)
    → then_do (seen f (mapped g w)) (λ r. DbClientImplData.pure (h r)) ≡ seen (λ a. h (f (g a))) w
seen-then_do f g h (ok a, d) = refl
seen-then_do f g h (throws e, d) = refl
seen-then_do f g h (fails x, d) = refl

module _ {Vm R : Type 0} (api : VmApi Vm) (blank : RegInfos) (udp : DbClientUpdate) (ty : ReqType)
    (p : Preparation R) {after answer_after : R → SerialOutBuff → SerialOutBuff}
    {fits answer_fits : R → R → Type 0} {merge answer_merge : R → R → R}
    (request : Passes p.cli_send p.serv_recv after fits merge)
    (response : Passes p.serv_send p.cli_recv answer_after answer_fits answer_merge) where
  mapped-Arrives :
      {A : Type 0} (g : A → R) (r : R) (w : Result A × Debugger Vm)
      → Reportable
          (λ a.
            answer_fits (g a) r × (length (answer_after (g a) (req_type.serialize [] ty)) < 2 ^ 64))
          w
      → Arrives api blank udp ty p request response r (mapped g w)
  mapped-Arrives g r (ok a, d) h = h
  mapped-Arrives g r (throws e, d) h = length-err_bytes e h
  mapped-Arrives g r (fails x, d) h = tt

  -- A method of `DBClientImplData` that sends `r` and returns `h` of the request that comes back ends as `m`
  -- does on the server.
  pub remote_lem :
      {A B : Type 0} (start : R) (work : R → Method Vm R) (m : Method Vm A) (g : A → R) (h : R → B)
      (r : R) (d : Debugger Vm)
      → IsRequest ty
      → ((is : SerialInBuff) → run_case api blank udp ty is ≡ serve p start work ty is)
      → work (merge r start) d ≡ mapped g (m d)
      → fits r start
      → length (after r (req_type.serialize [] ty)) < 2 ^ 64
      → Reportable
          (λ a.
            answer_fits (g a) r × (length (answer_after (g a) (req_type.serialize [] ty)) < 2 ^ 64))
          (m d)
      → then_do
          (send_req (loopback api blank udp) ty p r (idle d))
          (λ r. DbClientImplData.pure (h r))
        ≡ seen (λ a. h (answer_merge (g a) r)) (m d)
  remote_lem start work m g h r d known case works fit small fine =
      let arrives : Arrives api blank udp ty p request response r (work (merge r start) d) =
        rw works (mapped-Arrives g r (m d) fine) in
      let back =
        send_req-seen api blank udp ty p request response start work r d known case fit small
          arrives in
      rw (back, works) (seen-then_do (λ m. answer_merge m r) g h (m d))
