-- ===== src/DbClient/Tests.antt =====
-- A client of a scripted implementation.
use odb.Prelude.Maps.{find}
use odb.Prelude.{ℕ, ◌+◌, ◌≡◌, refl, true, false, [], ◌∷◌, take, drop, ◌++◌, arith}
use odb.Prelude.Results.{ok}
use odb.Types.{RegInfos, RegKind.{}, DbClientUpdate, StoppedState.{ready}}
use odb.Requests.{vm_infos, reg_infos}
use odb.DbClient.{DbClient, DbClientImpl, State}
use odb.DbClient.Calls
use odb.DbClient.Registers.{get_regs}
use odb.DbClient.Values.{Checked, check_stopped-Checked, stop_remembers}

abbrev standing : DbClientUpdate
standing = record { vm_state = ready; stopped = true; addr = 16; stack = [] }

-- An implementation that counts its calls. The program stands, and the registers hold nines.
abbrev counting : DbClientImpl ℕ
counting = record {
  connect = λ udp n. (ok (vm_infos.blank, standing), n + 1);
  stop = λ n. (ok tt, n + 1);
  check_stopped = λ udp n. (ok standing, n + 1);
  get_regs = λ ids bufs sizes count n. (ok ((9 ∷ []) ∷ []), n + 1);
  set_regs = λ ids bufs sizes count n. (ok tt, n + 1);
  get_regs_infos = λ ids infos count n. (ok infos, n + 1);
  find_regs_ids = λ names ids count n. (ok ids, n + 1);
  read_mem = λ addrs sizes bufs count n. (ok bufs, n + 1);
  write_mem = λ addrs sizes bufs count n. (ok tt, n + 1);
  get_symbols_by_ids = λ ids infos count n. (ok infos, n + 1);
  get_symbols_by_addr = λ addr size n. (ok [], n + 1);
  get_symbols_by_names = λ names infos count n. (ok infos, n + 1);
  get_code_text = λ addr nins n. (ok ([], []), n + 1);
  add_breakpoints = λ addrs count n. (ok tt, n + 1);
  del_breakpoints = λ addrs count n. (ok tt, n + 1);
  resume = λ type n. (ok tt, n + 1);
}

abbrev old_reg : RegInfos
old_reg = record reg_infos.blank { idx = 3; size = 1; val = 5 ∷ [] }

-- A client of a program that runs, with the value 5 of register 3 in its cache.
abbrev running : DbClient ℕ
running = record {
  impl = 0;
  state = State.vm_running;
  udp = record standing { stopped = false };
  vm_infos = vm_infos.blank;
  regi_arr = old_reg ∷ [];
  regi_idx_map = (3, 0) ∷ [];
  regi_name_map = ([], 0) ∷ [];
}

check_stopped-Checked_example :
    (c' : DbClient ℕ) × (Calls.check_stopped counting running ≡ (ok tt, c'))
    × Checked counting running standing 1 c'
check_stopped-Checked_example = check_stopped-Checked counting running standing 1 refl refl

stop_remembers_example :
    (c' : DbClient ℕ) × (Calls.stop counting running ≡ (ok tt, c'))
    × (c'.state ≡ State.vm_stopped)
    × (get_regs counting (3 ∷ []) ((0 ∷ []) ∷ []) (1 ∷ []) c'
        ≡ (ok ((take 1 (5 ∷ []) ++ drop 1 (0 ∷ [])) ∷ []), c'))
unfolding find
stop_remembers_example =
    stop_remembers counting running standing 1 2 3 0 1 old_reg (0 ∷ []) refl refl refl refl
      (refl, refl, λ none_there. cc) (omega arith) (omega arith)
