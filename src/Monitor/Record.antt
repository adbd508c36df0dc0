-- ===== src/Monitor/Record.antt =====
-- src/monitor.cpp: `addPadHistoryEntry` and `waitOrSendHitMessage` of `DrumMonitor`.
use eaves_drum.Base.{
  ℕ, ◌-◌, Bool, false, not, ◌&&◌, ◌||◌, ltb, leb, ◌==◌, if◌then◌else◌, u16, sub32, List, Option,
  none, some,
}
use eaves_drum.Drum.Settings.{Zones}
use eaves_drum.Monitor.History.{
  HistoryEntry, MonitorHistory, add_entry_raw, add_gap_entry, add_value_entry, get_last_entry,
  copy_to, get_relative_pos, reset_trigger,
}

abbrev pub min_write_interval_us : ℕ
min_write_interval_us = 200

pub record DrumMonitor : Type 0 where
  pub history : MonitorHistory
  pub last_history_update_time_us : ℕ
  pub next_hit_send_time_ms : ℕ

-- The gap before a value: a single value is written again first, as one point makes no line.
unfoldable pub add_gap : MonitorHistory → MonitorHistory
add_gap h =
    if h.number_values_after_last_gap == 1
    then (add_gap_entry (add_entry_raw h 100 false (get_last_entry h).values).0 100).0
    else (add_gap_entry h 200).0

-- The monitor, and whether an entry was written.
unfoldable pub add_pad_history_entry : ℕ → Zones ℕ → DrumMonitor → DrumMonitor × Bool
unfolding add_gap
add_pad_history_entry now values m =
    let elapsed = sub32 now m.last_history_update_time_us in
    let apart = ltb 400 elapsed in
    let h = if apart then add_gap m.history else m.history in
    let r =
      add_value_entry h (u16 (if apart then elapsed - min_write_interval_us else elapsed)) values in
    if ltb elapsed min_write_interval_us
    then (m, false)
    else (record m { history = r.0; last_history_update_time_us = now }, r.1)

-- A message with the history: its entries, and where the trigger starts and ends.
pub record Message : Type 0 where
  pub entries : List HistoryEntry
  pub trigger_start_index : ℕ
  pub trigger_end_index : ℕ

-- The part of `sendHitMessage` that includes the history.
unfoldable pub history_message : MonitorHistory → Message
history_message h = record {
  entries = copy_to h;
  trigger_start_index = get_relative_pos h h.trigger_start_pos;
  trigger_end_index = get_relative_pos h h.trigger_end_pos;
}

unfoldable pub wait_or_send_hit_message : ℕ → Bool → DrumMonitor → DrumMonitor × Option Message
unfolding history_message
wait_or_send_hit_message now_ms send_now m =
    if send_now || (not (m.next_hit_send_time_ms == 0) && leb m.next_hit_send_time_ms now_ms)
    then (
      record m { next_hit_send_time_ms = 0; history = reset_trigger m.history },
      some (history_message m.history),
    )
    else (m, none)
