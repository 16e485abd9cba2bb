-- ===== src/DataClientHandler/Refusals.antt =====
-- src/server/data-client-handler.cc: the requests that the handler refuses, and those that it cannot serve.
use odb.Prelude.{ℕ, true, ◌≤◌, ◌<◌, ◌≡◌, ◌≢◌, refl, ap, ◌∙◌, List, [], ◌∷◌, length, ◌^◌, arith}
use odb.Prelude.Results.{Str, Result, ok, throws, fails, Fault.{undefined}, text}
use odb.Types.{RegInfos, DbClientUpdate}
use odb.VmApi.{VmApi}
use odb.Serial.{SerialOutBuff, SerialInBuff, in_buff, read, unserial_raw, number_of}
use odb.Serial.Formats.{byte_format, serialize_string}
use odb.Serial.ReqTypes.{ReqType, req_type}
use odb.RequestHandler.ServSend
use odb.Requests.Structs.{ReqReadMem, ReqWriteMem}
use odb.Debugger.{Debugger, Method, lift, pure, ◌>>=◌}
use odb.DataClientHandler.{
  serve, run_command, run_case, check_stopped, check_case, catch_error, what,
}
use odb.DataClientHandler.Cases
use odb.DataClientHandler.Cases.{pairs, triples, two_sizes, third_size, fill}
use odb.VmSide
use odb.Requests
use odb.RequestHandler.{Preparation, server_read_request}

-- The response that carries an error.
abbrev pub error_response : Str → SerialOutBuff
error_response e = serialize_string (req_type.serialize [] ReqType.err) (what e)

module _ {Vm : Type 0} (api : VmApi Vm) (blank : RegInfos) (udp : DbClientUpdate) where
  -- A request of which the first byte names no request, and also one of type `ERR`, is answered with an error,
  -- whatever follows, and leaves the debugger as it was.
  pub run_command-bad :
      (b : ℕ) (rest : List ℕ) (d : Debugger Vm)
      → 20 ≤ b
      → b < 256
      → length rest < 2 ^ 63
      → run_command api blank udp (in_buff (b ∷ rest)) d
        ≡ (ok (error_response (text "Bad API request")), d)
  unfolding run_command run_case catch_error byte_format unserial_raw read number_of
      ServSend.object_out
  run_command-bad b rest d low high small = ground arith

-- While the program runs, a request of any other type than `STOP` and `CHECK_STOPPED` is answered with an
-- error, whatever follows the byte that is its type, and leaves the debugger as it was.
pub check_stopped-refuses :
    {Vm : Type 0} (udp : DbClientUpdate) (b : ℕ) (rest : List ℕ) (d : Debugger Vm)
    → b ≢ 1
    → b ≢ 2
    → b < 256
    → length rest < 2 ^ 63
    → check_stopped udp (in_buff (b ∷ rest)) d ≡ (
      ok (error_response (text "Only stop and check stopped request can be sent while VM running")),
      d,
    )
unfolding check_stopped check_case catch_error byte_format unserial_raw read number_of
    ServSend.object_out
check_stopped-refuses udp b rest d not_stop not_check high small = ground arith

-- A request before it is read.
abbrev pub no_reads : ReqReadMem
no_reads = record { nbufs = 0; buf_size = 0; in_addrs = []; out_bufs = [] }

abbrev pub no_writes : ReqWriteMem
no_writes = record { nbufs = 0; buf_size = 0; in_addrs = []; in_bufs = [] }

-- What becomes of an outcome on the first two blocks of a request for more: a value is never used, since the
-- third size lies behind the array, and an error is answered.
abbrev pub after_two : {A : Type 0} → Result A → Result SerialOutBuff
after_two (ok _) = fails undefined
after_two (throws e) = ok (error_response e)
after_two (fails x) = fails x

first_pairs :
    (a b size : ℕ) (more : List ℕ) → pairs (a ∷ b ∷ more) (two_sizes size) ≡ (a, size) ∷ (b, 0) ∷ []
unfolding pairs
first_pairs a b size [] = refl
first_pairs a b size (c ∷ more) = refl

first_triples :
    (a b size : ℕ) (more xs ys : List ℕ) (bufs : List (List ℕ))
    → triples (a ∷ b ∷ more) (two_sizes size) (xs ∷ ys ∷ bufs) ≡ (a, size, xs) ∷ (b, 0, ys) ∷ []
unfolding triples
first_triples a b size [] xs ys bufs = refl
first_triples a b size (c ∷ more) xs ys bufs = refl

-- The same, before the error is caught.
abbrev spoilt : {A B : Type 0} → Result A → Result B
spoilt (ok _) = fails undefined
spoilt (throws e) = throws e
spoilt (fails x) = fails x

spoilt_by_size :
    {Vm A B : Type 0} (m : Method Vm A) (count : ℕ) (rest : A → Method Vm B) (d : Debugger Vm)
    → 3 ≤ count
    → (m >>= λ a. lift (third_size count) >>= λ _. rest a) d ≡ (spoilt (m d).0, (m d).1)
spoilt_by_size m count rest d many = ground (arith, many)

spoilt_request :
    {Vm A R : Type 0} (prepare : Preparation R) (start r : R) (work : R → Method Vm R)
    (ty : ReqType) (is is' : SerialInBuff) (d : Debugger Vm) (w : Result A × Debugger Vm)
    → server_read_request true prepare is start ≡ ok (r, is')
    → work r d ≡ (spoilt w.0, w.1)
    → catch_error (serve prepare start work ty is d) ≡ (after_two w.0, w.1)
unfolding serve catch_error ServSend.object_out
spoilt_request prepare start r work ty is is' d (ok a, d') reads works =
    ground (arith, reads, works)
spoilt_request prepare start r work ty is is' d (throws e, d') reads works =
    ground (arith, reads, works)
spoilt_request prepare start r work ty is is' d (fails x, d') reads works =
    ground (arith, reads, works)

module _ {Vm : Type 0} (api : VmApi Vm) (blank : RegInfos) (udp : DbClientUpdate) where
  dispatched :
      (is is' : SerialInBuff) (ty : ReqType) (d : Debugger Vm)
      → req_type.unserialize ReqType.connect is ≡ ok (ty, is')
      → run_command api blank udp is d ≡ catch_error (run_case api blank udp ty is' d)
  unfolding run_command
  dispatched is is' ty d typed = rw typed refl

  read_two :
      (r : ReqReadMem) (a b : ℕ) (more : List ℕ) (d : Debugger Vm)
      → 3 ≤ r.nbufs
      → r.in_addrs ≡ a ∷ b ∷ more
      → let m = VmSide.read_mem api ((a, r.buf_size) ∷ (b, 0) ∷ []) d in
        Cases.read_mem api r d ≡ (spoilt m.0, m.1)
  unfolding Cases.read_mem
  read_two r a b more d many addrs =
      ap (λ ranges. (VmSide.read_mem api ranges >>= answer) d)
        (rw addrs (first_pairs a b r.buf_size more))
      ∙ spoilt_by_size (VmSide.read_mem api ((a, r.buf_size) ∷ (b, 0) ∷ [])) r.nbufs store d many
    where
      store : List (List ℕ) → Method Vm ReqReadMem
      store vals = do bufs ← lift (fill r.out_bufs vals); pure (record r { out_bufs = bufs })

      answer : List (List ℕ) → Method Vm ReqReadMem
      answer vals = lift (third_size r.nbufs) >>= λ _. store vals

  write_two :
      (w : ReqWriteMem) (a b : ℕ) (more xs ys : List ℕ) (bufs : List (List ℕ)) (d : Debugger Vm)
      → 3 ≤ w.nbufs
      → w.in_addrs ≡ a ∷ b ∷ more
      → w.in_bufs ≡ xs ∷ ys ∷ bufs
      → let m = VmSide.write_mem api ((a, w.buf_size, xs) ∷ (b, 0, ys) ∷ []) d in
        Cases.write_mem api w d ≡ (spoilt m.0, m.1)
  unfolding Cases.write_mem
  write_two w a b more xs ys bufs d many addrs blocks =
      ap (λ ranges. (VmSide.write_mem api ranges >>= answer) d)
        (rw (addrs, blocks) (first_triples a b w.buf_size more xs ys bufs))
      ∙ spoilt_by_size (VmSide.write_mem api ((a, w.buf_size, xs) ∷ (b, 0, ys) ∷ [])) w.nbufs
          (λ _. pure w) d many
    where
      answer : Unit {0} → Method Vm ReqWriteMem
      answer _ = lift (third_size w.nbufs) >>= λ _. pure w

  -- A request of type `READ_MEM` for three blocks or more is never answered with them. The debugger reads the
  -- first block, and no bytes at the address of the second. If neither throws, the server loads a size behind
  -- its array of two, which is undefined; an error is answered.
  pub read_mem_of_three :
      (is is0 is1 : SerialInBuff) (r : ReqReadMem) (a b : ℕ) (more : List ℕ) (d : Debugger Vm)
      → req_type.unserialize ReqType.connect is ≡ ok (ReqType.read_mem, is0)
      → server_read_request true Requests.prepare_read_mem is0 no_reads ≡ ok (r, is1)
      → 3 ≤ r.nbufs
      → r.in_addrs ≡ a ∷ b ∷ more
      → let m = VmSide.read_mem api ((a, r.buf_size) ∷ (b, 0) ∷ []) d in
        run_command api blank udp is d ≡ (after_two m.0, m.1)
  unfolding run_case
  read_mem_of_three is is0 is1 r a b more d typed reads many addrs =
      dispatched is is0 ReqType.read_mem d typed
      ∙ spoilt_request Requests.prepare_read_mem no_reads r (Cases.read_mem api) ReqType.read_mem
          is0 is1 d (VmSide.read_mem api ((a, r.buf_size) ∷ (b, 0) ∷ []) d) reads
          (read_two r a b more d many addrs)

  -- A request of type `WRITE_MEM` for three blocks or more is never answered as done. The debugger writes the
  -- first block, and no bytes at the address of the second. If neither throws, the server loads a size behind
  -- its array of two, which is undefined; an error is answered.
  pub write_mem_of_three :
      (is is0 is1 : SerialInBuff) (w : ReqWriteMem) (a b : ℕ) (more xs ys : List ℕ)
      (bufs : List (List ℕ)) (d : Debugger Vm)
      → req_type.unserialize ReqType.connect is ≡ ok (ReqType.write_mem, is0)
      → server_read_request true Requests.prepare_write_mem is0 no_writes ≡ ok (w, is1)
      → 3 ≤ w.nbufs
      → w.in_addrs ≡ a ∷ b ∷ more
      → w.in_bufs ≡ xs ∷ ys ∷ bufs
      → let m = VmSide.write_mem api ((a, w.buf_size, xs) ∷ (b, 0, ys) ∷ []) d in
        run_command api blank udp is d ≡ (after_two m.0, m.1)
  unfolding run_case
  write_mem_of_three is is0 is1 w a b more xs ys bufs d typed reads many addrs blocks =
      dispatched is is0 ReqType.write_mem d typed
      ∙ spoilt_request Requests.prepare_write_mem no_writes w (Cases.write_mem api)
          ReqType.write_mem is0 is1 d
          (VmSide.write_mem api ((a, w.buf_size, xs) ∷ (b, 0, ys) ∷ []) d) reads
          (write_two w a b more xs ys bufs d many addrs blocks)
