-- ===== src/Chunk.antt =====
-- pkg/chunk/chunk.go: how a page's sections are folded and its parts merged.
pub mod Lines
pub mod Parts
pub mod Folding
pub mod Merging
pub mod Units
pub mod Kept
