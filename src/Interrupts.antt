-- ===== src/Interrupts.antt =====
-- kernel/arch/i386/interrupts: the interrupt controllers, the interrupt table and the dispatch.
pub mod Ports
pub mod Pic
pub mod Idt
pub mod Irq
pub mod Route
mod Tests
