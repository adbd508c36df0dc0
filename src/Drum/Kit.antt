-- ===== src/Drum/Kit.antt =====
-- src/drum/drum_kit.cpp, src/drum/drum_kit.h: the kit, which samples its pads and sends their notes.
pub mod Notes
pub mod Evaluate
pub mod Tables
pub mod Update
pub mod Loop
