-- ===== src/Midi.antt =====
-- src/midi/midi_transport.h: the choice of the transport that sends the kit's messages.
pub mod Multiplexer
pub mod Rockband
pub mod GuitarHero
