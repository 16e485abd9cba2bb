-- ===== src/Requests/Structs.antt =====
-- include/odb/mess/request.hh: the structs of the requests. A pointer is the array that it points to.
use odb.Prelude.{ℕ, List}
use odb.Prelude.Results.{Str}
use odb.Types.{RegInfos, SymbolInfos, VmInfos, DbClientUpdate, ResumeType}

pub record ReqStop : Type 0 where
  pub tag : ℕ

pub record ReqConnect : Type 0 where
  pub out_infos : VmInfos
  pub out_udp : DbClientUpdate

pub record ReqCheckStopped : Type 0 where
  pub out_udp : DbClientUpdate

pub record ReqGetRegs : Type 0 where
  pub nregs : ℕ
  pub reg_size : ℕ
  pub ids : List ℕ
  pub out_bufs : List (List ℕ)

pub record ReqGetRegsVar : Type 0 where
  pub nregs : ℕ
  pub in_ids : List ℕ
  pub in_regs_size : List ℕ
  pub out_bufs : List (List ℕ)

pub record ReqSetRegs : Type 0 where
  pub nregs : ℕ
  pub reg_size : ℕ
  pub in_ids : List ℕ
  pub in_bufs : List (List ℕ)

pub record ReqSetRegsVar : Type 0 where
  pub nregs : ℕ
  pub in_ids : List ℕ
  pub in_regs_size : List ℕ
  pub in_bufs : List (List ℕ)

pub record ReqGetRegsInfos : Type 0 where
  pub nregs : ℕ
  pub ids : List ℕ
  pub out_infos : List RegInfos

pub record ReqFindRegsIds : Type 0 where
  pub nregs : ℕ
  pub in_bufs : List Str
  pub out_ids : List ℕ

pub record ReqReadMem : Type 0 where
  pub nbufs : ℕ
  pub buf_size : ℕ
  pub in_addrs : List ℕ
  pub out_bufs : List (List ℕ)

pub record ReqReadMemVar : Type 0 where
  pub nbufs : ℕ
  pub in_addrs : List ℕ
  pub in_bufs_size : List ℕ
  pub out_bufs : List (List ℕ)

pub record ReqWriteMem : Type 0 where
  pub nbufs : ℕ
  pub buf_size : ℕ
  pub in_addrs : List ℕ
  pub in_bufs : List (List ℕ)

pub record ReqWriteMemVar : Type 0 where
  pub nbufs : ℕ
  pub in_addrs : List ℕ
  pub in_bufs_size : List ℕ
  pub in_bufs : List (List ℕ)

pub record ReqGetSymsByIds : Type 0 where
  pub nsyms : ℕ
  pub in_ids : List ℕ
  pub out_infos : List SymbolInfos

pub record ReqGetSymsByAddr : Type 0 where
  pub addr : ℕ
  pub size : ℕ
  pub out_infos : List SymbolInfos

pub record ReqGetSymsByNames : Type 0 where
  pub nsyms : ℕ
  pub in_names : List Str
  pub out_infos : List SymbolInfos

pub record ReqGetCodeText : Type 0 where
  pub addr : ℕ
  pub nins : ℕ
  pub out_text : List Str
  pub out_sizes : List ℕ

pub record ReqAddBkps : Type 0 where
  pub size : ℕ
  pub in_addrs : List ℕ

pub record ReqDelBkps : Type 0 where
  pub size : ℕ
  pub in_addrs : List ℕ

pub record ReqResume : Type 0 where
  pub type : ResumeType

pub record ReqErr : Type 0 where
  pub msg : Str
