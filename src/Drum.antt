-- ===== src/Drum.antt =====
-- src/drum: pads, their sensing, and the kit that turns hits into MIDI messages.
pub mod Examples
pub mod NoteQueue
pub mod Settings
pub mod Scale
pub mod Pin
pub mod Connector
pub mod Pad
pub mod Sensing
pub mod Mux
pub mod Kit
