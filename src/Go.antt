-- ===== src/Go.antt =====
-- What the program takes from the Go language: channels, maps, machine words, writes into slices.
pub mod Chan
pub mod Dict
pub mod Word
pub mod State
pub mod Int
pub mod Slice
pub mod Float
