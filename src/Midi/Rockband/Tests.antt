-- ===== src/Midi/Rockband/Tests.antt =====
-- A yellow cymbal and a red pad that are held, and a blue pad that takes the place of a cymbal.
use eaves_drum.Base.{◌≡◌, refl, inr, true, false, arith}
use eaves_drum.Midi.Rockband.{
  HitTable, no_hit, put_hit, is_held, is_pad, is_cymbal, count, has_conflict, make_room,
  send_note_on, red_pad, yellow_cymbal, blue_pad,
}
use eaves_drum.Midi.Rockband.Counts.{Compatible}
use eaves_drum.Midi.Rockband.Oldest.{BeforeWrap}
use eaves_drum.Midi.Rockband.Room.{make_room_ends, send_note_on-Compatible}
use eaves_drum.Midi.Rockband.Report.{
  update_hid_report, HidReport, no_buttons, hat_centered, no_velocities,
}
use eaves_drum.Midi.Rockband.Decode.{reads, is_pressed}
use eaves_drum.Midi.Rockband.Told.{reads-update_hid_report}

abbrev two_hits : HitTable
two_hits =
    put_hit (put_hit (λ i. no_hit) red_pad (record { time_ms = 100; velocity = 90 })) yellow_cymbal
      (record { time_ms = 105; velocity = 70 })

two_hits-BeforeWrap : BeforeWrap two_hits
two_hits-BeforeWrap j lt = ground arith

two_hits-Compatible : Compatible (is_held two_hits)
unfolding count is_pad is_cymbal
two_hits-Compatible = inr (inr (omega arith, omega arith))

make_room_ends_example : has_conflict (make_room 9 two_hits blue_pad) blue_pad ≡ false
make_room_ends_example = make_room_ends two_hits blue_pad two_hits-BeforeWrap

send_note_on-Compatible_example : Compatible (is_held (send_note_on two_hits 45 80 110))
send_note_on-Compatible_example =
    send_note_on-Compatible two_hits 45 80 110 two_hits-BeforeWrap two_hits-Compatible

abbrev still : HidReport
still = record { buttons = no_buttons; hat = hat_centered; velocities = no_velocities }

reads-update_hid_report_example :
    reads (update_hid_report true false 110 two_hits still).1 4 ≡ is_pressed two_hits 110 4
unfolding is_pressed
reads-update_hid_report_example =
    reads-update_hid_report two_hits 110 4 0 still two_hits-Compatible (omega arith) (omega arith)
      refl
