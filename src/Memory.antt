-- ===== src/Memory.antt =====
-- kernel/mem.cpp and kernel/block.cpp: the address space of a process. `Block` has the memory
-- blocks, `Space` the block list and the page translation table, `Search` the search for free
-- addresses, and `Virtual` the system's operations; the other modules prove what they do.
pub mod Block
pub mod Space
pub mod Search
pub mod Virtual
pub mod Pages
pub mod Valid
pub mod Cut
pub mod Split
pub mod Release
pub mod Free
pub mod Allocate
pub mod FreeArea
pub mod Lookup
pub mod Requests
mod Tests
