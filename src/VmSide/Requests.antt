-- ===== src/VmSide/Requests.antt =====
-- src/server/db-client-impl-vmside.cc: the requests of a client, as data.
use odb.Prelude.{ℕ, List, [], ◌∷◌}
use odb.Prelude.Results.{Str}
use odb.Types.{RegInfos, DbClientUpdate, ResumeType}
use odb.VmApi.{VmApi}
use odb.Debugger.{Debugger}
use odb.VmSide

pub data Request : Type 0 where
  connect check_stopped : DbClientUpdate → Request
  stop : Request
  get_regs get_regs_infos : List ℕ → Request
  set_regs : List (ℕ × List ℕ) → Request
  find_regs_ids get_symbols_by_names : List Str → Request
  read_mem : List (ℕ × ℕ) → Request
  write_mem : List (ℕ × ℕ × List ℕ) → Request
  get_symbols_by_ids add_breakpoints del_breakpoints : List ℕ → Request
  get_symbols_by_addr get_code_text : ℕ → ℕ → Request
  resume : ResumeType → Request

-- The requests that neither move the program nor change the breakpoints.
abbrev pub IsRead : Request → Type 0
IsRead Request.stop = ⊥
IsRead (Request.resume type) = ⊥
IsRead (Request.add_breakpoints addrs) = ⊥
IsRead (Request.del_breakpoints addrs) = ⊥
IsRead _ = Unit {0}

module _ {Vm : Type 0} (api : VmApi Vm) (blank : RegInfos) where
  -- The object that a request leaves behind, however it ends.
  unfoldable pub serve : Request → Debugger Vm → Debugger Vm
  serve (Request.connect udp) d = (VmSide.connect udp d).1
  serve (Request.check_stopped udp) d = (VmSide.check_stopped udp d).1
  serve Request.stop d = (VmSide.stop d).1
  serve (Request.get_regs ids) d = (VmSide.get_regs api blank ids d).1
  serve (Request.get_regs_infos ids) d = (VmSide.get_regs_infos api blank ids d).1
  serve (Request.set_regs regs) d = (VmSide.set_regs api regs d).1
  serve (Request.find_regs_ids names) d = (VmSide.find_regs_ids api blank names d).1
  serve (Request.get_symbols_by_names names) d = (VmSide.get_symbols_by_names api names d).1
  serve (Request.read_mem ranges) d = (VmSide.read_mem api ranges d).1
  serve (Request.write_mem ranges) d = (VmSide.write_mem api ranges d).1
  serve (Request.get_symbols_by_ids ids) d = (VmSide.get_symbols_by_ids api ids d).1
  serve (Request.add_breakpoints addrs) d = (VmSide.add_breakpoints addrs d).1
  serve (Request.del_breakpoints addrs) d = (VmSide.del_breakpoints addrs d).1
  serve (Request.get_symbols_by_addr addr size) d = (VmSide.get_symbols_by_addr api addr size d).1
  serve (Request.get_code_text addr nins) d = (VmSide.get_code_text api addr nins d).1
  serve (Request.resume type) d = (VmSide.resume type d).1

  -- Requests that come one after the other.
  unfoldable pub serve_all : List Request → Debugger Vm → Debugger Vm
  serve_all [] d = d
  serve_all (req ∷ reqs) d = serve_all reqs (serve req d)
