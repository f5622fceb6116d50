-- ===== src/Reloc.antt =====
-- channel/channelapp/source/loader_reloc.c: the images that the loader accepts, and what it writes.
pub mod Area
pub mod Dol
pub mod Elf
pub mod Run
mod Tests
