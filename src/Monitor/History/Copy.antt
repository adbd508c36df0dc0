-- ===== src/Monitor/History/Copy.antt =====
-- Where the entries of the ring buffer are in the copy that is sent with a hit.
use eaves_drum.Base.{
  ℕ, zero, suc, ◌<◌, ◌≡◌, refl, ap, ◌∙◌, arith, some, List, [], ◌∷◌, length, take, drop, get_or,
  length-append, length-take, length-drop, ◌==◌, if◌then◌else◌,
}
use eaves_drum.Monitor.History.{
  HistoryEntry, MonitorHistory, no_entry, ordered, copy_to, clear_first, get_relative_pos,
}
use eaves_drum.Monitor.History.Order.{IsValid, copy_to-ordered}
use eaves_drum.Monitor.History.Trigger.{relative_start_pos}

-- Sent as the first entry, an entry has no time.
abbrev pub without_time : HistoryEntry → HistoryEntry
without_time e = record e { time_until_previous_us = 0 }

get_or-clear_first :
    (es : List HistoryEntry) (i : ℕ)
    → get_or (clear_first es) i no_entry
      ≡ (if i == 0 then without_time (get_or es i no_entry) else get_or es i no_entry)
unfolding clear_first
get_or-clear_first [] zero = refl
get_or-clear_first [] (suc i) = ground arith
get_or-clear_first (e ∷ es) zero = refl
get_or-clear_first (e ∷ es) (suc i) = ground arith

length-clear_first : (es : List HistoryEntry) → length (clear_first es) ≡ length es
unfolding clear_first
length-clear_first [] = refl
length-clear_first (e ∷ es) = refl

length-ordered : (h : MonitorHistory) → IsValid h → length (ordered h) ≡ 200
length-ordered h v =
    let n = h.next_write_pos in
    let ring = h.ring_buffer in
    let small = v.next_small in
    omega (
      arith,
      length-append (drop n ring) (take n ring),
      length-drop n ring,
      length-take n ring,
      v.slots,
    )

-- The relative position is 0 at the next position only.
relative_zero :
    (h : MonitorHistory) (t : ℕ)
    → IsValid h
    → t < 200
    → (get_relative_pos h (some t) == 0) ≡ (t == h.next_write_pos)
unfolding get_relative_pos
relative_zero h t v small = let bound = v.next_small in ground arith

-- `copyTo` copies 200 entries from a valid history, and a position of the ring below 200, made
-- relative, is the index of its entry in the copy; the entry is as in the ring, but without its
-- time if it is the oldest, at the next position to write.
pub copy_to-relative :
    (h : MonitorHistory) (t : ℕ)
    → IsValid h
    → t < 200
    → let e = get_or h.ring_buffer t no_entry in
      (length (copy_to h) ≡ 200)
      × (get_or (copy_to h) (get_relative_pos h (some t)) no_entry
          ≡ (if t == h.next_write_pos then without_time e else e))
copy_to-relative h t v small =
    let same = copy_to-ordered h v in
    let at = get_relative_pos h (some t) in
    (
      ap length same ∙ length-clear_first (ordered h) ∙ length-ordered h v,
      ap (λ es. get_or es at no_entry) same
          ∙ get_or-clear_first (ordered h) at
          ∙ ap
              (λ b.
                if b
                then without_time (get_or (ordered h) at no_entry)
                else get_or (ordered h) at no_entry)
              (relative_zero h t v small)
          ∙ ap (λ e. if t == h.next_write_pos then without_time e else e)
              (relative_start_pos h t v small),
    )
