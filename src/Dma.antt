-- ===== src/Dma.antt =====
-- The DMA driver of zephyr-samples/drivers/dma/dma_emul.c, which moves blocks of data by reading
-- from a PCIe client.
pub mod State
pub mod Config
pub mod Start
pub mod Worker
pub mod Whole
pub mod Runs
pub mod Overtaken
