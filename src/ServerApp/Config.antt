-- ===== src/ServerApp/Config.antt =====
-- src/server/server-app.cc: the constructors of `ServerApp`. The environment and `atoi` are parameters. A port
-- is not negative here.
use odb.Prelude.{ℕ, Bool, true, false, none, some, Option}
use odb.Prelude.Maps.{str_eq}
use odb.Prelude.Results.{Str, text}
use odb.ServerApp.{ServerApp, ServerConfig}

-- `g_conf_default`.
abbrev pub conf_default : ServerConfig
conf_default = record {
  enabled = false;
  nostart = false;
  mode_server_cli = false;
  server_cli_sighandler = true;
  mode_tcp = false;
  tcp_port = 12644;
}

module _ (getenv : Str → Option Str) (atoi : Str → ℕ) where
  -- `if (value) option = std::strcmp(value, "1") == 0`.
  unfoldable pub flag : Str → Bool → Bool
  flag name set = elim (getenv name) [ none ↦ set | some value ↦ str_eq.beq value (text "1") ]

  unfoldable pub number : Str → ℕ → ℕ
  number name set = elim (getenv name) [ none ↦ set | some value ↦ atoi value ]

  unfoldable pub make : {Vm H : Type 0} → ServerConfig → ServerApp Vm H
  unfolding flag number
  make conf = record {
    conf = record {
      enabled = flag (text "ODB_CONF_ENABLED") conf.enabled;
      nostart = flag (text "ODB_CONF_NOSTART") conf.nostart;
      mode_server_cli = flag (text "ODB_CONF_MODE_SERVER_CLI") conf.mode_server_cli;
      server_cli_sighandler =
          flag (text "ODB_CONF_SERVER_CLI_SIGHANDLER") conf.server_cli_sighandler;
      mode_tcp = flag (text "ODB_CONF_MODE_TCP") conf.mode_tcp;
      tcp_port = number (text "ODB_CONF_TCP_PORT") conf.tcp_port;
    };
    db = none;
    client = none;
  }
