-- ===== src/Serial/RoundTrips.antt =====
-- src/mess/request.cc: each struct is read back as it was written.
use odb.Prelude.{ℕ, ◌^◌, ◌<◌, ◌≡◌, false, List, length, arith}
use odb.Prelude.Results.{ok}
use odb.Types.{CallInfos, RegInfos, RegKind, SymbolInfos, DbClientUpdate, StoppedState}
use odb.Serial.Raw.{limit, Begins, at_end}
use odb.Serial.Formats.{
  serialize_vector, unserialize_vector, bool, stopped_state, stopped_state_byte, byte_stopped_state,
  reg_kind_byte, byte_reg_kind, bool_byte, byte_bool,
}
use odb.Serial.Structs.{
  u32, u64, call_infos, call_stack, symbol_infos, db_client_update, serialize_call,
  unserialize_call, serialize_symbol, unserialize_symbol, serialize_reg, unserialize_reg,
  serialize_update, unserialize_update,
}
use odb.Serial.Sequences.{
  ReadsBack, Always, All, raw-ReadsBack, string-ReadsBack, vector-ReadsBack, byte_format-ReadsBack,
}

abbrev pub U32 : ℕ → Type 0
U32 x = x < limit 4

abbrev pub U64 : ℕ → Type 0
U64 x = x < limit 8

pub u32-ReadsBack : ReadsBack u32 U32
u32-ReadsBack = raw-ReadsBack 4

pub u64-ReadsBack : ReadsBack u64 U64
u64-ReadsBack = raw-ReadsBack 8

-- An enumerator, or another value that the cast to a byte keeps.
abbrev pub IsStoppedState : StoppedState → Type 0
IsStoppedState e = (stopped_state_byte e < 256) × (byte_stopped_state (stopped_state_byte e) ≡ e)

abbrev pub IsRegKind : RegKind → Type 0
IsRegKind e = (reg_kind_byte e < 256) × (byte_reg_kind (reg_kind_byte e) ≡ e)

pub bool-ReadsBack : ReadsBack bool Always
bool-ReadsBack =
    let law = byte_format-ReadsBack false bool_byte byte_bool in
    record {
      begins = law.begins;
      reads = λ d os old a h b small. law.reads d os old a (ground arith) b small;
    }

abbrev pub IsCall : CallInfos → Type 0
IsCall ci = U64 ci.caller_start_addr × U64 ci.call_addr

pub call_infos-ReadsBack : ReadsBack call_infos IsCall
unfolding serialize_call unserialize_call
call_infos-ReadsBack = record {
  begins = λ d os ci b. u64-ReadsBack.begins d os _ (u64-ReadsBack.begins d _ ci.call_addr b);
  reads = λ d os old ci h b small.
      let b1 = u64-ReadsBack.begins d (u64.serialize os ci.caller_start_addr) ci.call_addr b in
      let first =
        u64-ReadsBack.reads d os old.caller_start_addr ci.caller_start_addr h.0 b1 small in
      let second = u64-ReadsBack.reads d _ old.call_addr ci.call_addr h.1 b small in
      ground (arith, first, second);
}

-- The sizes of a struct are those of its types: numbers of 32 or 64 bits, and vectors whose length is a
-- `size_t`.
abbrev pub IsSymbol : SymbolInfos → Type 0
IsSymbol sym = U32 sym.idx × U64 sym.addr

pub symbol_infos-ReadsBack : ReadsBack symbol_infos IsSymbol
unfolding serialize_symbol unserialize_symbol
symbol_infos-ReadsBack = record {
  begins = λ d os sym b.
      let b2 = u64-ReadsBack.begins d _ sym.addr b in
      u32-ReadsBack.begins d os sym.idx (string-ReadsBack.begins d _ sym.name b2);
  reads = λ d os old sym h b small.
      let b2 = u64-ReadsBack.begins d _ sym.addr b in
      let b1 = string-ReadsBack.begins d (u32.serialize os sym.idx) sym.name b2 in
      let idx = u32-ReadsBack.reads d os old.idx sym.idx h.0 b1 small in
      let name = string-ReadsBack.reads d _ old.name sym.name tt b2 small in
      let addr = u64-ReadsBack.reads d _ old.addr sym.addr h.1 b small in
      ground (arith, idx, name, addr);
}

-- A register whose numbers fit their types is read back from what was written, but for its value, which
-- stays that of the old object; the data are read up to the last byte that was written.
pub unserialize_reg-serialize_reg :
    (d os : List ℕ) (old reg : RegInfos)
    → U32 reg.idx
    → U64 reg.size
    → IsRegKind reg.kind
    → Begins d (serialize_reg os reg)
    → length d < 2 ^ 64
    → unserialize_reg old (at_end d os)
      ≡ ok (record reg { val = old.val }, at_end d (serialize_reg os reg))
unfolding serialize_reg unserialize_reg
unserialize_reg-serialize_reg d os old reg i s k b small =
    let kinds = byte_format-ReadsBack RegKind.general reg_kind_byte byte_reg_kind in
    let b3 = kinds.begins d _ reg.kind b in
    let b2 = u64-ReadsBack.begins d _ reg.size b3 in
    let b1 = string-ReadsBack.begins d (u32.serialize os reg.idx) reg.name b2 in
    let idx = u32-ReadsBack.reads d os old.idx reg.idx i b1 small in
    let name = string-ReadsBack.reads d _ old.name reg.name tt b2 small in
    let size = u64-ReadsBack.reads d _ old.size reg.size s b3 small in
    let kind = kinds.reads d _ old.kind reg.kind k b small in ground (arith, idx, name, size, kind)

abbrev pub IsUpdate : DbClientUpdate → Type 0
IsUpdate udp =
    IsStoppedState udp.vm_state × U64 udp.addr × (length udp.stack < 2 ^ 64) × All IsCall udp.stack

pub db_client_update-ReadsBack : ReadsBack db_client_update IsUpdate
unfolding serialize_update unserialize_update
db_client_update-ReadsBack = record {
  begins = λ d os udp b. states.begins d os udp.vm_state (
      bool-ReadsBack.begins d _ udp.stopped
        (u64-ReadsBack.begins d _ udp.addr (stacks.begins d _ udp.stack b)));
  reads = λ d os old udp h b small.
      let b3 = stacks.begins d _ udp.stack b in
      let b2 = u64-ReadsBack.begins d _ udp.addr b3 in
      let b1 = bool-ReadsBack.begins d (stopped_state.serialize os udp.vm_state) udp.stopped b2 in
      let vm_state = states.reads d os old.vm_state udp.vm_state h.0 b1 small in
      let stopped = bool-ReadsBack.reads d _ old.stopped udp.stopped tt b2 small in
      let addr = u64-ReadsBack.reads d _ old.addr udp.addr h.1 b3 small in
      let stack = stacks.reads d _ old.stack udp.stack (h.2, h.3) b small in
      ground (arith, vm_state, stopped, addr, stack);
}
  where
    states : ReadsBack stopped_state IsStoppedState
    states = byte_format-ReadsBack StoppedState.ready stopped_state_byte byte_stopped_state

    stacks : ReadsBack call_stack (λ v. (length v < 2 ^ 64) × All IsCall v)
    stacks = vector-ReadsBack call_infos IsCall call_infos-ReadsBack

-- An update whose numbers fit their types, and whose state is a byte, is read back from what was
-- written, its whole call stack included, over any old object and whatever follows it, up to its last
-- byte.
pub unserialize_update-serialize_update :
    (d os : List ℕ) (old udp : DbClientUpdate)
    → IsUpdate udp
    → Begins d (serialize_update os udp)
    → length d < 2 ^ 64
    → unserialize_update old (at_end d os) ≡ ok (udp, at_end d (serialize_update os udp))
unserialize_update-serialize_update = db_client_update-ReadsBack.reads

-- A list of symbols of which each has numbers that fit their types is read back from what was written,
-- over any old vector and whatever follows it, up to its last byte.
pub symbols_read_back :
    (d os : List ℕ) (old syms : List SymbolInfos)
    → length syms < 2 ^ 64
    → All IsSymbol syms
    → Begins d (serialize_vector symbol_infos os syms)
    → length d < 2 ^ 64
    → unserialize_vector symbol_infos old (at_end d os)
      ≡ ok (syms, at_end d (serialize_vector symbol_infos os syms))
symbols_read_back d os old syms size fits b small =
    (vector-ReadsBack symbol_infos IsSymbol symbol_infos-ReadsBack).reads d os old syms (size, fits)
      b small
