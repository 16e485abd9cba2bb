-- ===== src/DbClient/Remote.antt =====
-- include/odb/client/db-client-impl-data.hh: `DBClientImplData` as the `DBClientImpl` of a client.
use odb.DbClientImplData.{AbstractDataClient}
use odb.DbClientImplData.Calls
use odb.DbClient.{DbClientImpl}

module _ {Net : Type 0} (dc : AbstractDataClient Net) where
  unfoldable pub remote : DbClientImpl Net
  remote = record {
    connect = λ udp. Calls.connect dc;
    stop = Calls.stop dc;
    check_stopped = λ udp. Calls.check_stopped dc;
    get_regs = Calls.get_regs dc;
    set_regs = Calls.set_regs dc;
    get_regs_infos = Calls.get_regs_infos dc;
    find_regs_ids = Calls.find_regs_ids dc;
    read_mem = Calls.read_mem dc;
    write_mem = Calls.write_mem dc;
    get_symbols_by_ids = Calls.get_symbols_by_ids dc;
    get_symbols_by_addr = Calls.get_symbols_by_addr dc;
    get_symbols_by_names = Calls.get_symbols_by_names dc;
    get_code_text = Calls.get_code_text dc;
    add_breakpoints = Calls.add_breakpoints dc;
    del_breakpoints = Calls.del_breakpoints dc;
    resume = Calls.resume dc;
  }
