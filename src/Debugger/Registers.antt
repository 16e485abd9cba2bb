-- ===== src/Debugger/Registers.antt =====
-- src/server/debugger.cc: the registers, whose static data is loaded once.
use odb.Prelude.{
  ℕ, Bool, true, false, List, ◌++◌, none, some, ltb, if◌then◌else◌, length, take, replicate, nat_eq,
  ◌-◌,
}
use odb.Prelude.Maps.{find, emplace, assign, str_eq}
use odb.Prelude.Results.{Str, Result, ok, fails, Fault.{undefined}, text}
use odb.Types.{
  RegInfos,
  RegKind,
  RegKind.{general, program_counter, stack_pointer, base_pointer, flags},
}
use odb.VmApi.{VmApi}
use odb.Debugger.{Method, pure, lift, throw, ◌>>=◌, ◌>>◌, gets, modify, call}

-- `vector::resize`: cut, or filled with zeros.
unfoldable pub resize : ℕ → List ℕ → List ℕ
resize n xs = take n xs ++ replicate (n - length xs) 0

-- `std::copy_n(&val[0], size, …)`, which may not read behind the vector.
unfoldable pub copy_n : ℕ → List ℕ → Result (List ℕ)
copy_n size val = if ltb (length val) size then fails undefined else ok (take size val)

module _ {Vm : Type 0} where
  -- `_map_regs.find(idx)->second`, where the entry is there.
  unfoldable pub loaded_reg : ℕ → Method Vm RegInfos
  loaded_reg idx d = elim (find idx d.map_regs) [
    | none ↦ (fails undefined, d)
    | some infos ↦ (ok infos, d)
  ]

  unfoldable pub registers_count : Method Vm ℕ
  registers_count = gets (λ d. d.infos.regs_count)

  unfoldable pub list_regs : RegKind → Method Vm (List ℕ)
  list_regs general = gets (λ d. d.infos.regs_general)
  list_regs program_counter = gets (λ d. d.infos.regs_program_counter)
  list_regs stack_pointer = gets (λ d. d.infos.regs_stack_pointer)
  list_regs base_pointer = gets (λ d. d.infos.regs_base_pointer)
  list_regs flags = gets (λ d. d.infos.regs_flags)
  list_regs (RegKind.other n) = throw (text "list_regs: invalid reg kind")

module _ {Vm : Type 0} (api : VmApi Vm) where
  unfoldable pub set_reg : ℕ → List ℕ → Method Vm (Unit {0})
  set_reg idx new_val = call (api.set_reg idx new_val)

-- `blank` is what a `RegInfos` declared with no initialiser holds.
module _ {Vm : Type 0} (api : VmApi Vm) (blank : RegInfos) where
  -- A call of `VMApi::get_reg` on an object of the caller.
  abbrev pub call_get_reg : ℕ → RegInfos → Bool → Method Vm (Result (Unit {0}) × RegInfos)
  call_get_reg idx infos val_only d =
      let (r, infos', vm') = api.get_reg idx infos val_only d.vm in
      (ok (r, infos'), record d { vm = vm' })

  -- `_load_reg` where the register is not in the map yet.
  unfoldable pub fetch_reg : ℕ → Method Vm (Unit {0})
  unfolding resize
  fetch_reg id = do
    (r, infos) ← call_get_reg id blank false
    lift r
    let filled = record infos { val = resize infos.size infos.val }
    modify λ d. record d {
      map_regs = emplace id filled d.map_regs;
      smap_regs = emplace infos.name id d.smap_regs;
    }

  unfoldable pub load_reg : ℕ → Method Vm (Unit {0})
  unfolding fetch_reg
  load_reg id d = elim (find id d.map_regs) [ some _ ↦ (ok tt, d) | none ↦ fetch_reg id d ]

  unfoldable pub get_reg : ℕ → Method Vm (List ℕ)
  unfolding load_reg loaded_reg copy_n
  get_reg idx = do
    load_reg idx
    infos ← loaded_reg idx
    (r, infos') ← call_get_reg idx infos true
    modify (λ d. record d { map_regs = assign idx infos' d.map_regs })
    lift r
    lift (copy_n infos'.size infos'.val)

  unfoldable pub get_reg_infos : ℕ → Method Vm RegInfos
  unfolding load_reg loaded_reg
  get_reg_infos idx = do load_reg idx; loaded_reg idx

  -- `find_reg_id` where the name is not in the map yet.
  unfoldable pub fetch_reg_id : Str → Method Vm ℕ
  unfolding load_reg
  fetch_reg_id name = do id ← call (api.find_reg_id name); load_reg id; pure id

  unfoldable pub find_reg_id : Str → Method Vm ℕ
  unfolding fetch_reg_id
  find_reg_id name d = elim (find name d.smap_regs) [
    | some id ↦ (ok id, d)
    | none ↦ fetch_reg_id name d
  ]
