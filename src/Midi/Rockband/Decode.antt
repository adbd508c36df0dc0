-- ===== src/Midi/Rockband/Decode.antt =====
-- The pads and cymbals that a game reads from a report.
use eaves_drum.Base.{
  ℕ, zero, suc, ◌+◌, Bool, false, not, ◌&&◌, ◌||◌, ltb, leb, ◌==◌, if◌then◌else◌, sub32,
}
use eaves_drum.Midi.Rockband.{HitTable, hit_hold_time_ms}
use eaves_drum.Midi.Rockband.Report.{HidReport, hat_up, hat_down}

-- Held, and not for longer than the hold time.
unfoldable pub is_pressed : HitTable → ℕ → ℕ → Bool
is_pressed t now i =
    not ((t i).time_ms == 0) && not (ltb hit_hold_time_ms (sub32 now (t i).time_ms))

-- Which colours are pressed by a pad, by a cymbal, or not at all, as the documentation of the
-- controller has it: a flag alone tells all colours' kind; of a pad and a cymbal together, the hat
-- tells the cymbal's colour (up is yellow, down is blue, else green), and a single colour is both.
unfoldable pub cymbal_colour : HidReport → ℕ
cymbal_colour r = if r.hat == hat_up then 4 else if r.hat == hat_down then 5 else 6

unfoldable pub colour : HidReport → ℕ → Bool
colour r zero = r.buttons.red
colour r (suc zero) = r.buttons.yellow
colour r (suc (suc zero)) = r.buttons.blue
colour r (suc (suc (suc zero))) = r.buttons.green
colour r (suc (suc (suc (suc zero)))) = r.buttons.yellow
colour r (suc (suc (suc (suc (suc zero))))) = r.buttons.blue
colour r (suc (suc (suc (suc (suc (suc zero)))))) = r.buttons.green
colour r _ = false

-- Another colour than the cymbal's is lit.
abbrev lit_beside : HidReport → Bool
lit_beside r =
    r.buttons.red
    || ((r.buttons.yellow && not (cymbal_colour r == 4))
        || ((r.buttons.blue && not (cymbal_colour r == 5))
            || (r.buttons.green && not (cymbal_colour r == 6))))

unfoldable pub reads_pad : HidReport → ℕ → Bool
unfolding colour cymbal_colour
reads_pad r i =
    (r.buttons.pad_flag && colour r i)
    && (not r.buttons.cymbal_flag || (not (i + 3 == cymbal_colour r) || not (lit_beside r)))

unfoldable pub reads_cymbal : HidReport → ℕ → Bool
unfolding colour cymbal_colour
reads_cymbal r i =
    (r.buttons.cymbal_flag && colour r i) && (not r.buttons.pad_flag || (i == cymbal_colour r))

unfoldable pub reads : HidReport → ℕ → Bool
unfolding reads_pad reads_cymbal
reads r (suc (suc (suc (suc (suc (suc (suc zero))))))) = r.buttons.kick_button
reads r (suc (suc (suc (suc (suc (suc (suc (suc zero)))))))) = r.buttons.hihat_button
reads r i = if leb i 3 then reads_pad r i else reads_cymbal r i
