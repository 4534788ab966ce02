-- ===== src/Tcp.antt =====
-- TCP state tracking, src/kern/npf_state_tcp.c: the transition table (`Fsm`), the window check
-- (`Window`) and the tracking of a connection (`Track`).
pub mod Fsm
pub mod Window
pub mod Track
mod Tests
