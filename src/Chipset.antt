-- ===== src/Chipset.antt =====
-- The chipset (src/modules/chipset): the interrupt controller and the DMA controller.
pub mod Pic
pub mod Dma
pub mod Pit
pub mod Ppi
mod Tests
