-- ===== src/Examples.antt =====
-- Concrete inputs for the theorems.
pub mod Bitmaps
pub mod Trigrams
pub mod Postings
pub mod Candidates
pub mod Codecs
pub mod Indexed
pub mod Tables
pub mod Searching
pub mod Targets
