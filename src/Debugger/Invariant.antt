-- ===== src/Debugger/Invariant.antt =====
-- src/server/debugger.cc: the invariant of a debugger that has started.
pub mod Histories
use odb.Prelude.{
  ℕ, ◌≤◌, ◌<◌, ◌≡◌, refl, ◌∙◌, Bool, true, false, List, [], ◌∷◌, Option, none, some, arith, nat_eq,
  ◌⊎◌, inl, inr, ltb, if◌then◌else◌, Option-cases, sym, ap, Bool-cases, leb, ◌||◌, not,
}
use mathlib.Core.Path.{subst}
use odb.Prelude.Maps.{contains, erase, contains-erase}
use odb.Prelude.Results.{Str, Result, ok, throws, fails, Fault.{assertion}}
use odb.RangeMap.{RangeMap, make, set}
use odb.RangeMap.Spec.{IsValid}
use odb.RangeMap.Set.{Sets, set-Sets, set_out_of_bounds, make-IsValid}
use odb.Types.{RegInfos, ResumeType, VmInfos}
use odb.VmApi.{VmApi, UpdateInfos}
use odb.Debugger.{Debugger, Method, State, gets, assert, call, ◌>>=◌, ◌>>◌}
use odb.Debugger.Flow.{
  is_not_started, is_finished, is_stopped, on_update, on_init, resume, stop, create, update,
  track_calls,
}
use odb.Debugger.Breakpoints.{add_breakpoint, del_breakpoint, has_breakpoint}
use odb.Debugger.Registers.{get_reg, get_reg_infos, set_reg, find_reg_id}
use odb.Debugger.Memory.{read_mem, write_mem, get_code_text}
use odb.Debugger.Symbols.{load_symbol, mark, sub_ptr}
use odb.Debugger.Frames.{
  Control, Within, bind-Within, get_reg-Control, get_reg_infos-Control, find_reg_id-Control,
  load_symbol-Control, mark-Control, get_symbol_at-Within, get_symbols-Within,
  get_symbol_infos-Within, find_sym_id-Within,
}
use odb.Debugger.Operations.{Operation, perform, history}

-- A valid map over the whole memory.
pub record Spans (memory_size : ℕ) (o : Option (RangeMap ℕ)) : Type 0 where
  pub map : RangeMap ℕ
  pub there : o ≡ some map
  pub valid : IsValid map
  pub bottom : map.min_key ≡ 0
  pub top : map.max_key ≡ sub_ptr memory_size 1

pub record Inv {Vm : Type 0} (d : Debugger Vm) : Type 0 where
  pub started : is_not_started d.state ≡ false
  pub ranges : Spans d.infos.memory_size d.syms_ranges
  pub in_memory : (a : ℕ) → contains a d.breakpts ≡ true → a < d.infos.memory_size

-- A `set` of the map returns, or fails and there is no new map.
set_cases :
    (m : RangeMap ℕ) (low high v : ℕ)
    → IsValid m
    → (set m low high v ≡ fails assertion) ⊎ ((m' : RangeMap ℕ) × Sets m low high v m')
set_cases m low high v w =
    elim (Bool-cases (ltb low m.min_key || (ltb m.max_key high || ltb high low))) [
      | inl out ↦ inl (set_out_of_bounds m low high v (ground arith))
      | inr within ↦ inr (set-Sets m low high v w (ground arith) (ground arith) (ground arith))
    ]

module _ {Vm : Type 0} where
  -- The invariant rests on four members only.
  pub members-Inv :
      (d d' : Debugger Vm)
      → is_not_started d'.state ≡ false
      → d'.infos ≡ d.infos
      → d'.syms_ranges ≡ d.syms_ranges
      → ((a : ℕ) → contains a d'.breakpts ≡ true → a < d.infos.memory_size)
      → Inv d
      → Inv d'
  members-Inv d d' s i r b v = record {
    started = s;
    ranges =
        subst (λ o. Spans d'.infos.memory_size o) (sym r)
          (subst (λ x. Spans x.memory_size d.syms_ranges) (sym i) v.ranges);
    in_memory = λ a h. subst (λ x. a < x.memory_size) (sym i) (b a h);
  }

  pub Control-Inv :
      (d d' : Debugger Vm) → Control d d' → d'.syms_ranges ≡ d.syms_ranges → Inv d → Inv d'
  Control-Inv d d' c r v =
      members-Inv d d' (ap is_not_started c.state ∙ v.started) c.infos r
        (λ a h. ground (arith, c, v.in_memory a)) v

  mark-Spans :
      (d : Debugger Vm) (addr end : ℕ) (n : ℕ)
      → Spans n d.syms_ranges
      → Spans n (mark addr end d).1.syms_ranges
  unfolding mark
  mark-Spans d addr end n s = elim (set_cases s.map addr end 1 s.valid) [
    | inl e ↦ record {
      map = s.map;
      there = ground (arith, s.there, e);
      valid = s.valid;
      bottom = s.bottom;
      top = s.top;
    }
    | inr (m', (e, reads, valid, reduced, bottom, top)) ↦ record {
      map = m';
      there = ground (arith, s.there, e);
      valid = valid;
      bottom = bottom ∙ s.bottom;
      top = top ∙ s.top;
    }
  ]

  pub mark-Inv : (addr end : ℕ) (d : Debugger Vm) → Inv d → Inv (mark addr end d).1
  mark-Inv addr end d v =
      let c = mark-Control addr end d in
      record {
        started = ground (arith, c, v.started);
        ranges =
            subst (λ x. Spans x.memory_size (mark addr end d).1.syms_ranges) (sym c.infos)
              (mark-Spans d addr end d.infos.memory_size v.ranges);
        in_memory = λ a h. ground (arith, c, v.in_memory a);
      }

  pub add_breakpoint-Inv : (addr : ℕ) (d : Debugger Vm) → Inv d → Inv (add_breakpoint addr d).1
  unfolding add_breakpoint contains
  add_breakpoint-Inv addr d v =
      members-Inv d (add_breakpoint addr d).1 (ground (arith, v.started)) (ground arith)
        (ground arith) (λ a h. ground (arith, v.in_memory a)) v

  pub del_breakpoint-Inv : (addr : ℕ) (d : Debugger Vm) → Inv d → Inv (del_breakpoint addr d).1
  unfolding del_breakpoint
  del_breakpoint-Inv addr d v =
      members-Inv d (del_breakpoint addr d).1 (ground (arith, v.started)) (ground arith)
        (ground arith) (λ a h. ground (arith, v.in_memory a, contains-erase addr a d.breakpts)) v

  pub resume-Inv : (type : ResumeType) (d : Debugger Vm) → Inv d → Inv (resume type d).1
  unfolding resume
  resume-Inv type d v =
      members-Inv d (resume type d).1 (ground (arith, v.started)) (ground arith) (ground arith)
        (λ a h. ground (arith, v.in_memory a)) v

  pub stop-Inv : (d : Debugger Vm) → Inv d → Inv (stop d).1
  unfolding stop
  stop-Inv d v =
      members-Inv d (stop d).1 (ground (arith, v.started)) (ground arith) (ground arith)
        (λ a h. ground (arith, v.in_memory a)) v

  pub has_breakpoint-Inv : (addr : ℕ) (d : Debugger Vm) → Inv d → Inv (has_breakpoint addr d).1
  unfolding has_breakpoint
  has_breakpoint-Inv addr d v =
      members-Inv d (has_breakpoint addr d).1 (ground (arith, v.started)) (ground arith)
        (ground arith) (λ a h. ground (arith, v.in_memory a)) v

  pub vm-Inv : (d : Debugger Vm) (vm : Vm) → Inv d → Inv (record d { vm = vm })
  vm-Inv d vm v = members-Inv d (record d { vm = vm }) v.started refl refl v.in_memory v

  abbrev pub Keeps : Debugger Vm → Debugger Vm → Type 0
  Keeps a b = Inv a → Inv b

  pub Keeps-trans : (a b c : Debugger Vm) → Keeps a b → Keeps b c → Keeps a c
  Keeps-trans a b c h k v = k (h v)
