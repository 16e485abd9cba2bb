-- ===== src/DataClientHandler/Cases.antt =====
-- src/server/data-client-handler.cc: what `run_command` does between the request that is read and the
-- response that is written, for each type of request: a call of `DBClientImplVMSide` on the fields.
use odb.Prelude.{ℕ, List, [], ◌∷◌, ◌++◌, length, take, drop, map, ltb, if◌then◌else◌}
use odb.Prelude.Results.{Str, Result, ok, fails, Fault.{undefined}}
use odb.Prelude.Results
use odb.Types.{RegInfos}
use odb.VmApi.{VmApi}
use odb.RequestHandler.ReadBack.{sizes_of, joined}
use odb.Requests.Structs.{
  ReqStop, ReqConnect, ReqCheckStopped, ReqGetRegs, ReqGetRegsVar, ReqSetRegs, ReqSetRegsVar,
  ReqGetRegsInfos, ReqFindRegsIds, ReqReadMem, ReqReadMemVar, ReqWriteMem, ReqWriteMemVar,
  ReqGetSymsByIds, ReqGetSymsByAddr, ReqGetSymsByNames, ReqGetCodeText, ReqAddBkps, ReqDelBkps,
  ReqResume,
}
use odb.Debugger.{Method, pure, lift, ◌>>=◌, ◌>>◌}
use odb.VmSide

-- `ids[i]` with `bufs[i]`. The arrays of a request are equally long: they were made for one count.
-- With an array of two sizes these are the first two rounds of the loop.
unfoldable pub pairs : {A B : Type 0} → List A → List B → List (A × B)
pairs [] ys = []
pairs (x ∷ xs) [] = []
pairs (x ∷ xs) (y ∷ ys) = (x, y) ∷ pairs xs ys

unfoldable pub triples : List ℕ → List ℕ → List (List ℕ) → List (ℕ × ℕ × List ℕ)
triples (x ∷ xs) (n ∷ sizes) (buf ∷ bufs) = (x, n, buf) ∷ triples xs sizes bufs
triples _ _ _ = []

-- The values are copied to `out_bufs[i]`, one after the other. The rows lie in one buffer: a value that is
-- longer than its row runs into the next ones, and behind the buffer it is undefined.
unfoldable pub copy_to : List ℕ → List (List ℕ) → List ℕ → Result (List (List ℕ))
copy_to [] vals buf = ok []
copy_to (n ∷ sizes) [] buf =
    Results.◌>>=◌ (copy_to sizes [] (drop n buf)) (λ rows. ok (take n buf ∷ rows))
copy_to (n ∷ sizes) (val ∷ vals) buf =
    let after = val ++ drop (length val) buf in
    let rest =
      Results.◌>>=◌ (copy_to sizes vals (drop n after)) (λ rows. ok (take n after ∷ rows)) in
    if ltb (length buf) (length val) then fails undefined else rest

abbrev pub fill : List (List ℕ) → List (List ℕ) → Result (List (List ℕ))
fill out_bufs vals = copy_to (sizes_of out_bufs) vals (joined out_bufs)

-- `vm_size_t bufs_size[2] = {size, 0}`.
abbrev pub two_sizes : ℕ → List ℕ
two_sizes size = size ∷ 0 ∷ []

-- `bufs_sizes[2]`, which the loops of `read_mem` and `write_mem` load in their third round.
abbrev pub third_size : ℕ → Result (Unit {0})
third_size count = if ltb 2 count then fails undefined else ok tt

module _ {Vm : Type 0} where
  unfoldable pub connect : ReqConnect → Method Vm ReqConnect
  connect req = do
    (infos, udp) ← VmSide.connect req.out_udp
    pure (record { out_infos = infos; out_udp = udp })

  unfoldable pub stop : ReqStop → Method Vm ReqStop
  stop req = do VmSide.stop; pure req

  unfoldable pub check_stopped : ReqCheckStopped → Method Vm ReqCheckStopped
  check_stopped req = do udp ← VmSide.check_stopped req.out_udp; pure (record { out_udp = udp })

  unfoldable pub add_bkps : ReqAddBkps → Method Vm ReqAddBkps
  add_bkps req = do VmSide.add_breakpoints req.in_addrs; pure req

  unfoldable pub del_bkps : ReqDelBkps → Method Vm ReqDelBkps
  del_bkps req = do VmSide.del_breakpoints req.in_addrs; pure req

  unfoldable pub resume : ReqResume → Method Vm ReqResume
  resume req = do VmSide.resume req.type; pure req

module _ {Vm : Type 0} (api : VmApi Vm) where
  unfoldable pub set_regs : ReqSetRegs → Method Vm ReqSetRegs
  unfolding pairs
  set_regs req = do VmSide.set_regs api (pairs req.in_ids req.in_bufs); pure req

  unfoldable pub set_regs_var : ReqSetRegsVar → Method Vm ReqSetRegsVar
  unfolding pairs
  set_regs_var req = do VmSide.set_regs api (pairs req.in_ids req.in_bufs); pure req

  unfoldable pub read_mem : ReqReadMem → Method Vm ReqReadMem
  unfolding pairs copy_to
  read_mem req = do
    vals ← VmSide.read_mem api (pairs req.in_addrs (two_sizes req.buf_size))
    lift (third_size req.nbufs)
    bufs ← lift (fill req.out_bufs vals)
    pure (record req { out_bufs = bufs })

  unfoldable pub read_mem_var : ReqReadMemVar → Method Vm ReqReadMemVar
  unfolding pairs copy_to
  read_mem_var req = do
    vals ← VmSide.read_mem api (pairs req.in_addrs req.in_bufs_size)
    bufs ← lift (fill req.out_bufs vals)
    pure (record req { out_bufs = bufs })

  unfoldable pub write_mem : ReqWriteMem → Method Vm ReqWriteMem
  unfolding triples
  write_mem req = do
    VmSide.write_mem api (triples req.in_addrs (two_sizes req.buf_size) req.in_bufs)
    lift (third_size req.nbufs)
    pure req

  unfoldable pub write_mem_var : ReqWriteMemVar → Method Vm ReqWriteMemVar
  unfolding triples
  write_mem_var req = do
    VmSide.write_mem api (triples req.in_addrs req.in_bufs_size req.in_bufs)
    pure req

  unfoldable pub get_syms_by_ids : ReqGetSymsByIds → Method Vm ReqGetSymsByIds
  get_syms_by_ids req = do
    infos ← VmSide.get_symbols_by_ids api req.in_ids
    pure (record req { out_infos = infos })

  unfoldable pub get_syms_by_addr : ReqGetSymsByAddr → Method Vm ReqGetSymsByAddr
  get_syms_by_addr req = do
    infos ← VmSide.get_symbols_by_addr api req.addr req.size
    pure (record req { out_infos = infos })

  unfoldable pub get_syms_by_names : ReqGetSymsByNames → Method Vm ReqGetSymsByNames
  get_syms_by_names req = do
    infos ← VmSide.get_symbols_by_names api req.in_names
    pure (record req { out_infos = infos })

  unfoldable pub get_code_text : ReqGetCodeText → Method Vm ReqGetCodeText
  get_code_text req = do
    lines ← VmSide.get_code_text api req.addr req.nins
    pure (record req {
      out_text = map (λ (line : Str × ℕ). line.0) lines;
      out_sizes = map (λ (line : Str × ℕ). line.1) lines;
    })

module _ {Vm : Type 0} (api : VmApi Vm) (blank : RegInfos) where
  unfoldable pub get_regs : ReqGetRegs → Method Vm ReqGetRegs
  unfolding copy_to
  get_regs req = do
    vals ← VmSide.get_regs api blank req.ids
    bufs ← lift (fill req.out_bufs vals)
    pure (record req { out_bufs = bufs })

  unfoldable pub get_regs_var : ReqGetRegsVar → Method Vm ReqGetRegsVar
  unfolding copy_to
  get_regs_var req = do
    vals ← VmSide.get_regs api blank req.in_ids
    bufs ← lift (fill req.out_bufs vals)
    pure (record req { out_bufs = bufs })

  unfoldable pub get_regs_infos : ReqGetRegsInfos → Method Vm ReqGetRegsInfos
  get_regs_infos req = do
    infos ← VmSide.get_regs_infos api blank req.ids
    pure (record req { out_infos = infos })

  unfoldable pub find_regs_ids : ReqFindRegsIds → Method Vm ReqFindRegsIds
  find_regs_ids req = do
    ids ← VmSide.find_regs_ids api blank req.in_bufs
    pure (record req { out_ids = ids })
