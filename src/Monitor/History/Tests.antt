-- ===== src/Monitor/History/Tests.antt =====
-- The history's theorems at a buffer whose next position is its last slot.
use eaves_drum.Base.{
  ℕ, ◌≡◌, refl, false, arith, some, none, [], ◌∷◌, ◌++◌, drop, get_or, replicate, length, ◌==◌,
  if◌then◌else◌,
}
use eaves_drum.Drum.Settings.{same}
use eaves_drum.Monitor.History.{
  HistoryEntry, MonitorHistory, no_entry, ordered, add_entry_raw, is_full, copy_to,
  get_relative_pos, set_trigger_start_pos, get_last_entry,
}
use eaves_drum.Monitor.History.Order.{IsValid, add_entry_raw-ordered}
use eaves_drum.Monitor.History.Copy.{without_time, copy_to-relative}
use eaves_drum.Monitor.History.Trigger.{add_all, add_all_after_trigger}

abbrev entry : ℕ → HistoryEntry
entry v = record { time_until_previous_us = 200; is_gap = false; values = same v }

abbrev recorded : MonitorHistory
recorded = record {
  last_write_pos = some 198;
  next_write_pos = 199;
  trigger_start_pos = none;
  trigger_end_pos = none;
  ring_buffer = replicate 198 (entry 7) ++ entry 90 ∷ no_entry ∷ [];
  number_values_after_last_gap = 199;
}

recorded-IsValid : IsValid recorded
recorded-IsValid = record { slots = refl; next_small = omega arith }

add_entry_raw-ordered_example :
    let r = add_entry_raw recorded 200 false (same 3) in
    IsValid r.0
    × (ordered r.0 ≡ (
        if is_full recorded then ordered recorded else drop 1 (ordered recorded) ++ entry 3 ∷ []))
add_entry_raw-ordered_example = add_entry_raw-ordered recorded 200 false (same 3) recorded-IsValid

copy_to-relative_example :
    (length (copy_to recorded) ≡ 200)
    × (get_or (copy_to recorded) (get_relative_pos recorded (some 198)) no_entry ≡ (
        if 198 == 199
        then without_time (get_or recorded.ring_buffer 198 no_entry)
        else get_or recorded.ring_buffer 198 no_entry))
copy_to-relative_example = copy_to-relative recorded 198 recorded-IsValid (omega arith)

add_all_after_trigger_example :
    let r = add_all (set_trigger_start_pos recorded) (entry 80 ∷ entry 60 ∷ []) in
    (get_or r.0.ring_buffer 198 no_entry ≡ get_last_entry recorded) × (r.1 ≡ 2) × IsValid r.0
add_all_after_trigger_example =
    add_all_after_trigger (entry 80 ∷ entry 60 ∷ []) recorded 198 recorded-IsValid refl
      (omega arith) refl
