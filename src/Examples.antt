-- ===== src/Examples.antt =====
-- Runs of the model on concrete packets and clients, and the theorems applied to them.
mod Dma
mod Errors
mod Pipe
mod Packets
mod Transfers
mod Reads
mod Registers
mod Device
mod Config
mod Board
mod Thread
