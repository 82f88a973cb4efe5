-- ===== src/Allocator.antt =====
-- source/drivers/system/memory/allocator.c and allocator.h: the page allocator of the kernel.
-- `Table` has the state and the search for the biggest free blocks, `Take` the allocations, `Give`
-- the release of a block, and `Calls` the functions that the kernel calls. The other modules prove.
pub mod Table
pub mod Take
pub mod Give
pub mod Calls
pub mod Array
pub mod Valid
pub mod Rank
pub mod Malloc
pub mod Longer
pub mod Allocate
pub mod Exact
pub mod Steps
pub mod StepsUsed
pub mod Search
pub mod Cases
pub mod Joined
pub mod Free
mod Tests
