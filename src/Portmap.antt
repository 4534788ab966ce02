-- ===== src/Portmap.antt =====
-- The map of the ports that are in use, src/kern/npf_portmap.c: the packed words (`Word`), the two-level
-- bitmap (`Bitmap`) and the operations on addresses (`Ports`).
pub mod Word
pub mod Bitmap
pub mod Ports
mod Tests
