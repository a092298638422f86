-- ===== src/MemoryMock/Setup.antt =====
-- The start of memory-mock/main.c: its command line, the check of its BARs, and the loop of the server.
-- A text is the number of its address, and the configuration file is read by a parameter.
pub mod Sizes
use warp_pipe.Base.{
  ℕ, zero, suc, ◌+◌, ◌-◌, ◌^◌, bit_and, bit_or, Bool, true, false, not, Option, none, some, List,
  [], ◌∷◌, Mem, update, u32, ltb, ◌==◌, if◌then◌else◌,
}
use warp_pipe.Client.State.{Callback, Host}
use warp_pipe.MemoryMock.{BarConfig}
use warp_pipe.Server.{Server, Calls, warppipe_server_loop}
use warp_pipe.Server.Create.{Sockets, warppipe_server_create, warppipe_server_register_accept_cb}

-- An option that `getopt` finds, with its `optarg`.
pub data Opt : Type 0 where
  client_mode : Opt
  address : ℕ → Opt
  port : ℕ → Opt
  ipv4 : Opt
  ipv6 : Opt
  config_file : ℕ → Opt
  help : Opt
  not_an_option : Opt

pub data Family : Type 0 where
  unspecified : Family
  inet : Family
  inet6 : Family

-- The members of `server` that the command line sets, and `yaml_path`.
pub record Settings : Type 0 where
  pub listen : Bool
  pub host : Option ℕ
  pub port_text : ℕ
  pub addr_family : Family
  pub yaml_path : Option ℕ

-- A function returns, or the program exits with the status 0.
pub data Args : Type 0 where
  accepted : Settings → Mem → Args
  refused : Args
  exits : Args

-- The loop over the options: it ends, or returns 1, or exits.
pub data OptionsRead : Type 0 where
  options_read : Settings → OptionsRead
  usage_refused : OptionsRead
  usage_exits : OptionsRead

unfoldable pub parse_options : List Opt → Settings → OptionsRead
parse_options [] s = options_read s
parse_options (client_mode ∷ opts) s = parse_options opts (record s { listen = false })
parse_options (address a ∷ opts) s = parse_options opts (record s { host = some a })
parse_options (port p ∷ opts) s = parse_options opts (record s { port_text = p })
parse_options (ipv4 ∷ opts) s = parse_options opts (record s { addr_family = inet })
parse_options (ipv6 ∷ opts) s = parse_options opts (record s { addr_family = inet6 })
parse_options (config_file f ∷ opts) s = parse_options opts (record s { yaml_path = some f })
parse_options (help ∷ opts) s = usage_exits
parse_options (not_an_option ∷ opts) s = usage_refused

-- `from_yaml` opens and reads a file: `none` if it cannot be opened or read as a configuration space.
unfoldable pub load_file : (ℕ → Mem → Option Mem) → Settings → Mem → Args
load_file from_yaml s configuration_space = elim s.yaml_path [
  | none ↦ accepted s configuration_space
  | some path ↦ elim (from_yaml path configuration_space) [
    | none ↦ refused
    | some space ↦ accepted s space
  ]
]

unfoldable pub parse_args : (ℕ → Mem → Option Mem) → List Opt → Settings → Mem → Args
unfolding parse_options load_file
parse_args from_yaml opts s configuration_space = elim (parse_options opts s) [
  | usage_exits ↦ exits
  | usage_refused ↦ refused
  | options_read s' ↦ load_file from_yaml s' configuration_space
]

-- `bar0_memory`, whose 128 bytes are counted up from 0x10.
abbrev pub bar0_memory : Mem
bar0_memory k = if ltb k 128 then 0x10 + k else 0

-- `bars_config` as the program starts. The callbacks for reads of BAR 0 and 1 are 0 and 1, the one for
-- writes to BAR 1 is 2.
abbrev pub mock_bars : ℕ → BarConfig
mock_bars zero = record {
  config = 1;
  size = 128;
  read_cb = some 0;
  write_cb = none;
  memory = bar0_memory;
}
mock_bars (suc zero) = record {
  config = 1;
  size = 2048;
  read_cb = some 1;
  write_cb = some 2;
  memory = λ k. 0;
}
mock_bars (suc (suc i)) = record {
  config = 0;
  size = 0;
  read_cb = none;
  write_cb = none;
  memory = λ k. 0;
}

-- `configuration_space` as the program starts: the vendor 1 and the device 2.
abbrev pub mock_space : Mem
mock_space = update (update (λ _. 0) 0 0x1) 2 0x2

-- `BAR_CHECK_SIZE` of a `uint32_t`.
abbrev pub bar_check_size : ℕ → Bool
bar_check_size s = bit_and (u32 (s + (2 ^ 32 - 1))) s == 0

-- The loop with `left` rounds left; true is the result 0.
unfoldable pub verify_bars : (ℕ → BarConfig) → ℕ → ℕ → Bool
verify_bars bars_config i zero = true
verify_bars bars_config i (suc left) =
    let rest = verify_bars bars_config (i + 1) left in
    if not (bar_check_size ((bars_config i).size)) then false else rest

unfoldable pub verify_args : (ℕ → BarConfig) → Bool
unfolding verify_bars
verify_args bars_config = verify_bars bars_config 0 6

module _ (host : Host) (calls : Calls host.World) (sockets : Sockets host.World) where
  -- `while (!server.quit)`, for `rounds` tests of it at most.
  unfoldable pub serve : ℕ → Server → host.World → Option (Server × host.World)
  serve zero server w = none
  serve (suc rounds) server w =
      if server.quit then some (server, w) else elim (warppipe_server_loop host calls server w) [
        | none ↦ none
        | some (server', w') ↦ serve rounds server' w'
      ]

  unfoldable pub memory_mark_start :
      ℕ → Callback → Server → host.World → Option (Server × host.World)
  unfolding serve
  memory_mark_start rounds server_client_accept server w =
      let (made, server', w') =
        warppipe_server_create host calls sockets
          (warppipe_server_register_accept_cb server (some server_client_accept)) w in
      let served = serve rounds server' w' in if made then served else some (server', w')
