-- ===== src/DbClientImplData/Calls.antt =====
-- src/client/db-client-impl-data.cc: the methods of `DBClientImplData`. A count is cut to the 16 bits of
-- its field.
use odb.Prelude.{ℕ, Bool, true, List, [], ◌∷◌, ◌%◌, ◌^◌, ltb, ◌==◌, if◌then◌else◌}
use odb.Prelude.Results.{Str, Result, ok, fails, Fault.{undefined}}
use odb.Types.{RegInfos, SymbolInfos, VmInfos, DbClientUpdate, ResumeType}
use odb.Serial.ReqTypes.{ReqType}
use odb.Requests
use odb.Requests.{vm_infos}
use odb.Serial.Structs.{db_client_update}
use odb.DbClientImplData.{AbstractDataClient, Remote, ◌>>=◌, ◌>>◌, pure, lift, connect_dc, send_req}

abbrev pub u16_of : ℕ → ℕ
u16_of n = n % 2 ^ 16

-- `regs_size[0]` and `regs_size[1]`.
abbrev pub item0 : List ℕ → Result ℕ
item0 [] = fails undefined
item0 (n ∷ sizes) = ok n

abbrev pub item1 : List ℕ → Result ℕ
item1 [] = fails undefined
item1 (n ∷ sizes) = item0 sizes

module _ {Net : Type 0} where
  -- `nregs < 2 || regs_size[1] == 0`.
  unfoldable pub same_size : List ℕ → ℕ → Remote Net Bool
  same_size regs_size nregs =
      if ltb nregs 2 then pure true else (lift (item1 regs_size) >>= λ n. pure (n == 0))

module _ {Net : Type 0} (dc : AbstractDataClient Net) where
  unfoldable pub connect : Remote Net (VmInfos × DbClientUpdate)
  connect = do
    connect_dc dc
    req ←
        send_req dc ReqType.connect Requests.prepare_connect
          (record { out_infos = vm_infos.blank; out_udp = db_client_update.blank })
    pure (req.out_infos, req.out_udp)

  unfoldable pub stop : Remote Net (Unit {0})
  stop = do req ← send_req dc ReqType.stop Requests.prepare_stop (record { tag = 0 }); pure tt

  unfoldable pub check_stopped : Remote Net DbClientUpdate
  check_stopped = do
    req ←
        send_req dc ReqType.check_stopped Requests.prepare_check_stopped
          (record { out_udp = db_client_update.blank })
    pure req.out_udp

  unfoldable pub get_regs_same : List ℕ → List (List ℕ) → List ℕ → ℕ → Remote Net (List (List ℕ))
  get_regs_same ids out_bufs regs_size nregs = do
    size ← lift (item0 regs_size)
    req ←
        send_req dc ReqType.get_regs Requests.prepare_get_regs
          (record { nregs = u16_of nregs; reg_size = size; ids = ids; out_bufs = out_bufs })
    pure req.out_bufs

  unfoldable pub get_regs_var : List ℕ → List (List ℕ) → List ℕ → ℕ → Remote Net (List (List ℕ))
  get_regs_var ids out_bufs regs_size nregs = do
    req ← send_req dc ReqType.get_regs_var Requests.prepare_get_regs_var (record {
      nregs = u16_of nregs;
      in_ids = ids;
      in_regs_size = regs_size;
      out_bufs = out_bufs;
    })
    pure req.out_bufs

  unfoldable pub get_regs : List ℕ → List (List ℕ) → List ℕ → ℕ → Remote Net (List (List ℕ))
  unfolding same_size get_regs_same get_regs_var
  get_regs ids out_bufs regs_size nregs = if nregs == 0 then pure out_bufs else (do
    same ← same_size regs_size nregs
    if same
        then get_regs_same ids out_bufs regs_size nregs
        else get_regs_var ids out_bufs regs_size nregs)

  unfoldable pub set_regs_same : List ℕ → List (List ℕ) → List ℕ → ℕ → Remote Net (Unit {0})
  set_regs_same ids in_bufs regs_size nregs = do
    size ← lift (item0 regs_size)
    req ←
        send_req dc ReqType.set_regs Requests.prepare_set_regs
          (record { nregs = u16_of nregs; reg_size = size; in_ids = ids; in_bufs = in_bufs })
    pure tt

  unfoldable pub set_regs_var : List ℕ → List (List ℕ) → List ℕ → ℕ → Remote Net (Unit {0})
  set_regs_var ids in_bufs regs_size nregs = do
    req ←
        send_req dc ReqType.set_regs_var Requests.prepare_set_regs_var (record {
          nregs = u16_of nregs;
          in_ids = ids;
          in_regs_size = regs_size;
          in_bufs = in_bufs;
        })
    pure tt

  unfoldable pub set_regs : List ℕ → List (List ℕ) → List ℕ → ℕ → Remote Net (Unit {0})
  unfolding same_size set_regs_same set_regs_var
  set_regs ids in_bufs regs_size nregs = if nregs == 0 then pure tt else (do
    same ← same_size regs_size nregs
    if same
        then set_regs_same ids in_bufs regs_size nregs
        else set_regs_var ids in_bufs regs_size nregs)

  unfoldable pub get_regs_infos : List ℕ → List RegInfos → ℕ → Remote Net (List RegInfos)
  get_regs_infos ids out_infos nregs = do
    req ←
        send_req dc ReqType.get_regs_infos Requests.prepare_get_regs_infos
          (record { nregs = u16_of nregs; ids = ids; out_infos = out_infos })
    pure req.out_infos

  unfoldable pub find_regs_ids : List Str → List ℕ → ℕ → Remote Net (List ℕ)
  find_regs_ids reg_names out_ids nregs = do
    req ←
        send_req dc ReqType.find_regs_ids Requests.prepare_find_regs_ids
          (record { nregs = u16_of nregs; in_bufs = reg_names; out_ids = out_ids })
    pure req.out_ids

  unfoldable pub read_mem : List ℕ → List ℕ → List (List ℕ) → ℕ → Remote Net (List (List ℕ))
  read_mem src_addrs bufs_sizes out_bufs nbuffs = if nbuffs == 0 then pure out_bufs else (do
    req ← send_req dc ReqType.read_mem_var Requests.prepare_read_mem_var (record {
      nbufs = u16_of nbuffs;
      in_addrs = src_addrs;
      in_bufs_size = bufs_sizes;
      out_bufs = out_bufs;
    })
    pure req.out_bufs)

  unfoldable pub write_mem : List ℕ → List ℕ → List (List ℕ) → ℕ → Remote Net (Unit {0})
  write_mem dst_addrs bufs_sizes in_bufs nbuffs = if nbuffs == 0 then pure tt else (do
    req ← send_req dc ReqType.write_mem_var Requests.prepare_write_mem_var (record {
      nbufs = u16_of nbuffs;
      in_addrs = dst_addrs;
      in_bufs_size = bufs_sizes;
      in_bufs = in_bufs;
    })
    pure tt)

  unfoldable pub get_symbols_by_ids : List ℕ → List SymbolInfos → ℕ → Remote Net (List SymbolInfos)
  get_symbols_by_ids ids out_infos nsyms = do
    req ←
        send_req dc ReqType.get_syms_by_ids Requests.prepare_get_syms_by_ids
          (record { nsyms = u16_of nsyms; in_ids = ids; out_infos = out_infos })
    pure req.out_infos

  unfoldable pub get_symbols_by_addr : ℕ → ℕ → Remote Net (List SymbolInfos)
  get_symbols_by_addr addr size = do
    req ←
        send_req dc ReqType.get_syms_by_addr Requests.prepare_get_syms_by_addr
          (record { addr = addr; size = size; out_infos = [] })
    pure req.out_infos

  unfoldable pub get_symbols_by_names :
      List Str → List SymbolInfos → ℕ → Remote Net (List SymbolInfos)
  get_symbols_by_names names out_infos nsyms = do
    req ←
        send_req dc ReqType.get_syms_by_names Requests.prepare_get_syms_by_names
          (record { nsyms = u16_of nsyms; in_names = names; out_infos = out_infos })
    pure req.out_infos

  -- The texts and the sizes.
  unfoldable pub get_code_text : ℕ → ℕ → Remote Net (List Str × List ℕ)
  get_code_text addr nins = do
    req ←
        send_req dc ReqType.get_code_text Requests.prepare_get_code_text
          (record { addr = addr; nins = nins; out_text = []; out_sizes = [] })
    pure (req.out_text, req.out_sizes)

  unfoldable pub add_breakpoints : List ℕ → ℕ → Remote Net (Unit {0})
  add_breakpoints addrs size = do
    req ←
        send_req dc ReqType.add_bkps Requests.prepare_add_bkps
          (record { size = u16_of size; in_addrs = addrs })
    pure tt

  unfoldable pub del_breakpoints : List ℕ → ℕ → Remote Net (Unit {0})
  del_breakpoints addrs size = do
    req ←
        send_req dc ReqType.del_bkps Requests.prepare_del_bkps
          (record { size = u16_of size; in_addrs = addrs })
    pure tt

  unfoldable pub resume : ResumeType → Remote Net (Unit {0})
  resume type = do
    req ← send_req dc ReqType.resume Requests.prepare_resume (record { type = type })
    pure tt
