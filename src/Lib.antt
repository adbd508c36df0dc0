-- ===== src/Lib.antt =====
-- The drum module's firmware core: from the sensors of a pad to the MIDI messages of the kit.
--
-- The program reads its pads in a loop. A multiplexer or an analog pin gives each pin a value; a
-- pad's connector holds its pins; the sensing of a pad turns the values, sample by sample, into hits
-- with a velocity; the kit turns hits into MIDI messages and stops each note after the gate time. A
-- transport carries the messages to a host; the configuration keeps the kit's settings as JSON.
--
-- Parts and files (sources are under src/drum unless a path is given):
--   Base                  library names, tests, lists, signed and machine integers, floats, loops
--   Drum/NoteQueue        note_event_queue.h: an array of 32 slots and its size
--   Drum/Settings         drum_settings.h, types.h
--   Drum/Scale            sensing/scale.cpp: `scale`, `curve`, `scaleAndCurve`
--   Drum/Pin              drum_pin.h and `readInput` of drum_pad.cpp: calibration and reading
--   Drum/Connector        drum_connector.cpp
--   Drum/Pad              drum_pad.h: a pad's state and its counts of zones and pins
--   Drum/Sensing          sensing/sensing.cpp: what all sensings share, and `PiezoSensing`
--   Drum/Sensing/PiezoSwitch  sensing/sensing_piezo_switch.cpp
--   Drum/Sensing/Controller   sensing/controller.cpp: the pedal of a hi-hat, and how fast it closes
--   Drum/Sensing/Latency      sensing/latency.cpp
--   Drum/Mux              drum_mux.cpp: `init` and `scan` of a multiplexer
--   Drum/Kit/Notes        drum_kit.cpp: NoteOn and NoteOff, the gate time
--   Drum/Kit/Evaluate     drum_kit.cpp: the messages for a pad after its sample
--   Drum/Kit/Update       drum_kit.cpp: `evaluatePad`, and `sense` of drum_pad.cpp
--   Drum/Kit/Loop         drum_kit.cpp: `updateDrums`, a pass of the main loop
--   Drum/Kit/Tables       drum_kit.h: look-ups, and the mappings of a role
--   Midi/Multiplexer      src/midi/midi_transport.h: the choice of the transport
--   Midi/Rockband         src/midi/midi_transport_rockband.cpp: hits held for the host's report
--   Midi/GuitarHero       src/midi/guitar_hero_util.h, midi_transport_guitar_hero_{spi,wii}.cpp
--   Touch                 src/boards/rp2040/touch.cpp: calibration and debouncing
--   Config                src/config: settings, mappings, multiplexers, pins and pads as JSON
--   Config/Kit            what a document adds to a kit: connectors, multiplexers, pads
--   Config/Roles          `applyDrumKitMappings` of src/config/config_drumkit.cpp
--   Monitor/History       src/monitor_history.cpp: a ring buffer whose trigger is protected
--   Monitor/HitInfo       src/monitor.cpp: the description of a hit
--   Monitor/Record        src/monitor.cpp: entries, gaps and messages of the history
--
-- A C++ object is a record and a method a function from the old to the new record, with its other
-- results beside it. A pointer between objects is an index. Numbers are naturals with the wrap of
-- their type written out (`u8`, `u16`, `u32`, `sub32`); times are the `uint32_t` of the firmware's
-- boards. `none` stands for a division by zero or a loop without an end. A `float` is its bit
-- pattern, and its operations are the fields of the parameter `FloatArith`. What the hardware reads
-- is the parameter `Inputs`, or `Environment` with the touch sensors.
--
-- The JSON library is the parameter `Json`, with its documented behaviour as `Documented`. Arduino's
-- `map` (with the formula of src/boards/native/arduino/Common.cpp where a theorem needs it), its
-- `equalsIgnoreCase`, the board's pins and the equality of texts are parameters as well. What a
-- multiplexer's analog pin reads depends on what its scan wrote to the digital pins before. A
-- pad's turn has the pad, its connector and its mappings as one value, and its pedal as another, so
-- that no two pads share a connector.
--
-- Loops run over a given number of rounds. That is the source's own bound but for the loop over
-- pending notes, which gets the size of the queue: each round removes one note, and the search for a
-- pad's pedal, which gets 257: its 8-bit index has then reached each entry, and the end if it can.
--
-- The loop that makes room for a hit in Midi/Rockband gets nine rounds, one for each pad; the removal
-- of the oldest hit takes one in each round, so that no conflict is left.
--
-- Not modelled: log output, the web interface, board drivers, the files and the text of the
-- configuration, its general section and the pads' way to JSON, and copied libraries.
pub mod Base
pub mod Drum
pub mod Midi
pub mod Monitor
pub mod Config
pub mod Touch
