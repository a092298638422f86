-- ===== src/Lib.antt =====
-- Warp Pipe carries the transaction layer packets (TLPs) and the data link packets (DLLPs) of PCI
-- Express over a stream socket. A server keeps a list of clients, one for each connection; a client
-- sends requests, and answers those of its peer by the callbacks that are registered for its BARs.
-- This library models the protocol code, the client, the server's loop, a mock device and the
-- reader of its configuration, and proves what a peer gets of what was sent.
--
-- The parts, and the files that model them:
--   * inc/warppipe/proto.h: Proto/Layout. A packet is the memory that it stands in, a function from
--     offsets to bytes, and a member is read and written at the bits where a little-endian host
--     keeps it, so that the members of a union overlap. Proto/ConfigHeader has the structure of the
--     configuration space header.
--   * src/proto.c: Proto/Header (`tlp_data_length`, `tlp_data_length_bytes`, `tlp_total_length`,
--     `tlp_req_set_addr`, `tlp_req_get_addr`), with the proofs in Proto/Length, Proto/Address,
--     Proto/Request and Proto/Agree.
--   * src/crc.c: Crc, with the proofs in Crc/Word (the register), Crc/Detection (the stored code),
--     Crc/Dllp and Crc/Lcrc.
--   * src/client.c: Client/State (`struct warppipe_client`), Client/Bars (`get_bar_idx`,
--     `warppipe_register_bar`), Client/Send (`client_send_pcie_transport`, `warppipe_ack`),
--     Client/Requests (`warppipe_read`, `warppipe_write` and their kin), Client/Handlers
--     (`handle_dllp`, `handle_tlp` and what it calls) and Client/Receive (`warppipe_client_read`).
--     The proofs stand in the files below these.
--   * src/yaml_configspace.c: ConfigSpace (`process_event` and the loop of
--     `pcie_configuration_space_header_from_yaml`, over the events of libyaml), with the proofs in
--     ConfigSpace/Header, ConfigSpace/Mapping and ConfigSpace/Places.
--   * memory-mock/main.c: MemoryMock (the callbacks of the device), with the proofs in
--     MemoryMock/Transfers and MemoryMock/Probe, and MemoryMock/Setup (`parse_args`, `verify_args`,
--     `memory_mark_start`), with the proofs in MemoryMock/Setup/Sizes.
--   * src/server.c: Server (the list of clients and `warppipe_server_loop`), with the proofs in
--     Server/Active, and Server/Create (`warppipe_server_create`, `handle_sigint`), with the proofs in
--     Server/Create/Attached and Server/Create/Outcome.
--   * zephyr-samples/drivers/dma/dma_emul.c: Dma. Dma/State has its data, Dma/Config
--     `dma_emul_configure` and the short functions, Dma/Start `dma_emul_start`, Dma/Worker the steps
--     of `dma_emul_work_handler`, and Dma/Runs every order of these steps and of the calls of other
--     threads. Dma/Whole follows one transfer from end to end, Dma/Overtaken two at once.
--   * zephyr-samples/common/common.c: Zephyr (`read_config_header_field`, `read_data`, `enumerate`
--     and what they call), with the proofs in Zephyr/HeaderField and, with the memory mock at the
--     other end, in Zephyr/Attached (the mock as the host sees it), Zephyr/Field (one field),
--     Zephyr/Enumerate (one round of the enumeration) and the files below it.
--   * zephyr-samples/pcie_native/src/main.c: Zephyr/Native. The main.c of pcie_native_thread beside it:
--     Zephyr/Thread, for a thread while no other runs. zephyr-tests/src/main.cpp: Zephyr/Suite. They
--     are programs with assertions (Zephyr/Checked), proved against the memory mock with the memory
--     behind its BARs (Zephyr/Populated). zephyr-samples/pcie_scan/src/main.c: Zephyr/Scan.
--   * Base holds the shared types and lemmas: Boolean tests, memory, the bits of native numbers.
--   * Examples holds runs on concrete input.
--
-- A function that changes the client takes a `State`, the client and the world, and gives a new
-- one. The socket calls and the calls of a callback by its pointer are the fields of `Host`; a
-- proof about the bytes that arrive takes a `Delivers` for it, which says that the socket is a
-- stream, and that the first 7 bytes of a packet come in one piece: the client gives up otherwise.
-- Integers of the source are native numbers with their wrap-around written out; an `int` that may
-- be negative is a ℤ, the type of Base/Int. The loop that reads the rest of a packet runs on fuel,
-- one round for each byte of the packet: each round that goes on has read a byte.
--
-- The DMA driver and the helpers see the client and the server through an interface, `Pcie` and
-- `Link`: requests, and rounds of the server's loop with the completions that arrive in them. A
-- theorem that waits for an answer takes a peer that answers as the memory mock does, in finite
-- time, what the mock answers: reads within its BAR 0 (`Answers`), whole words of its configuration
-- space (`Attached`), and reads and writes within the BARs that have the callback (`Populated`).
-- The mock's own functions fill them in Examples/Dma and Examples/Board.
-- Their loops run on a number of rounds that is an argument: `start_linked_iff` says how many are
-- enough for `dma_emul_start`, and the other theorems give the number. The work handler is a machine
-- of steps that needs no bound.
--
-- Not modelled: what the calls of the operating system and of the Zephyr kernel do, which are
-- parameters, the other sample programs for Zephyr, the log, memory that cannot be allocated,
-- accesses out of the bounds of an array, and hosts that are big-endian.
pub mod Base
pub mod Proto
pub mod Crc
pub mod Client
pub mod ConfigSpace
pub mod MemoryMock
pub mod Server
pub mod Dma
pub mod Zephyr
pub mod Examples
