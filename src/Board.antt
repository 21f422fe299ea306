-- ===== src/Board.antt =====
-- src/board.c, and the regions of memory that src/board.c, src/main.c and src/ldscript give out.
pub mod Blocks
mod Examples
pub mod FreeList
pub mod Regions
pub mod Start
