-- ===== src/Monitor/History.antt =====
-- src/monitor_history.h, src/monitor_history.cpp: `MonitorHistory`, a ring buffer of sensor values. An
-- index that is HISTORY_INDEX_NONE is `none`.
pub mod Order
pub mod Trigger
pub mod Copy
mod Tests
use eaves_drum.Base.{
  ℕ, ◌+◌, ◌-◌, ◌/◌, ◌%◌, Bool, true, false, Option, none, some, ◌==◌, if◌then◌else◌, List, ◌++◌,
  ◌∷◌, [], u8, u16, length, take, drop, set, get_or, ltb,
}
use eaves_drum.Drum.Settings.{Zones, same}

pub record HistoryEntry : Type 0 where
  pub time_until_previous_us : ℕ
  pub is_gap : Bool
  pub values : Zones ℕ

abbrev pub monitor_history_count : ℕ
monitor_history_count = 200

abbrev pub no_entry : HistoryEntry
no_entry = record { time_until_previous_us = 0; is_gap = false; values = same 0 }

pub record MonitorHistory : Type 0 where
  pub last_write_pos : Option ℕ
  pub next_write_pos : ℕ
  pub trigger_start_pos : Option ℕ
  pub trigger_end_pos : Option ℕ
  pub ring_buffer : List HistoryEntry
  pub number_values_after_last_gap : ℕ

unfoldable pub is_full : MonitorHistory → Bool
is_full h = elim h.trigger_start_pos [ none ↦ false | some t ↦ t == h.next_write_pos ]

-- `CONVERT_8BIT`
abbrev pub convert_8bit : ℕ → ℕ
convert_8bit v = u8 (v / 4)

-- The part of `addEntryRaw` after its guard.
unfoldable pub write_entry : MonitorHistory → ℕ → Bool → Zones ℕ → MonitorHistory
write_entry h time gap values = record h {
  ring_buffer =
      set h.ring_buffer h.next_write_pos
        (record { time_until_previous_us = time; is_gap = gap; values = values });
  number_values_after_last_gap = if gap then 0 else u16 (h.number_values_after_last_gap + 1);
  last_write_pos = some h.next_write_pos;
  next_write_pos = (h.next_write_pos + 1) % monitor_history_count;
}

unfoldable pub add_entry_raw : MonitorHistory → ℕ → Bool → Zones ℕ → MonitorHistory × Bool
add_entry_raw h time gap values =
    if is_full h then (h, false) else (write_entry h time gap values, true)

unfoldable pub add_value_entry : MonitorHistory → ℕ → Zones ℕ → MonitorHistory × Bool
add_value_entry h time v =
    add_entry_raw h time false
      (record { z0 = convert_8bit v.z0; z1 = convert_8bit v.z1; z2 = convert_8bit v.z2 })

unfoldable pub add_gap_entry : MonitorHistory → ℕ → MonitorHistory × Bool
add_gap_entry h time = add_entry_raw h time true (same 0)

-- The ring's entries, oldest first.
abbrev pub ordered : MonitorHistory → List HistoryEntry
ordered h = drop h.next_write_pos h.ring_buffer ++ take h.next_write_pos h.ring_buffer

unfoldable pub clear_first : List HistoryEntry → List HistoryEntry
clear_first [] = []
clear_first (e ∷ es) = record e { time_until_previous_us = 0 } ∷ es

-- `copyTo`: two blocks are copied, and the first entry loses its time.
unfoldable pub copy_to : MonitorHistory → List HistoryEntry
unfolding clear_first
copy_to h =
    let head =
      take (monitor_history_count - h.next_write_pos) (drop h.next_write_pos h.ring_buffer) in
    clear_first
      (if ltb 0 h.next_write_pos then head ++ take h.next_write_pos h.ring_buffer else head)

-- -1 + 200 - nextWritePos needs no remainder.
unfoldable pub get_relative_pos : MonitorHistory → Option ℕ → ℕ
get_relative_pos h none = monitor_history_count - h.next_write_pos - 1
get_relative_pos h (some i) =
    (i + (monitor_history_count - h.next_write_pos)) % monitor_history_count

unfoldable pub is_trigger_start_pos_set : MonitorHistory → Bool
is_trigger_start_pos_set h = elim h.trigger_start_pos [ none ↦ false | some t ↦ true ]

unfoldable pub set_trigger_start_pos : MonitorHistory → MonitorHistory
set_trigger_start_pos h = elim h.last_write_pos [
  | none ↦ h
  | some p ↦ record h { trigger_start_pos = some p; trigger_end_pos = some p }
]

unfoldable pub set_trigger_end_pos : MonitorHistory → MonitorHistory
set_trigger_end_pos h = elim h.last_write_pos [
  | none ↦ h
  | some p ↦ record h { trigger_end_pos = some p }
]

unfoldable pub reset_trigger : MonitorHistory → MonitorHistory
reset_trigger h = record h { trigger_start_pos = none; trigger_end_pos = none }

unfoldable pub get_last_entry : MonitorHistory → HistoryEntry
get_last_entry h = elim h.last_write_pos [
  | none ↦ no_entry
  | some p ↦ get_or h.ring_buffer p no_entry
]
