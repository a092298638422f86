-- ===== src/Client.antt =====
-- src/client.c and inc/warppipe/client.h: the client of one link, its outgoing packets, the
-- handlers of incoming ones, the receive step and the requests.
pub mod State
pub mod Bars
pub mod Send
pub mod Handlers
pub mod Receive
pub mod Requests
