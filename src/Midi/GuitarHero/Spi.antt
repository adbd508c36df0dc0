-- ===== src/Midi/GuitarHero/Spi.antt =====
-- src/midi/midi_transport_guitar_hero_spi.cpp: hits wait until the host asks for them. What the
-- hardware is given to send is a reply; its pins and interrupts are left out.
use eaves_drum.Base.{
  ℕ, zero, suc, ◌+◌, ◌≤◌, ◌<◌, ◌≡◌, refl, true, false, ◌&&◌, Option, none, some, List, [], ◌∷◌, ltb,
  ◌==◌, if◌then◌else◌, length, set, get_or, replicate, arith, inl, inr, Bool-cases, ◌⊎◌, ap, ap₂,
  sym, ◌∙◌,
}
use eaves_drum.Midi.GuitarHero.{pad_index_to_note, gh_note_to_pad_id, num_gh_pads}
use eaves_drum.Midi.GuitarHero.Pads.{same_note}

pub record MidiMessage : Type 0 where
  pub cmd : ℕ
  pub note : ℕ
  pub velocity : ℕ

-- `NOTE_ON | MIDI_CHANNEL`
abbrev pub note_on_command : ℕ
note_on_command = 153

-- `midiNoteBuffer` up to `midiNoteBufferCount`, and `pendingPadHits`.
pub record SpiState : Type 0 where
  pub buffer : List MidiMessage
  pub pending : List ℕ

abbrev pub no_hits : List ℕ
no_hits = replicate num_gh_pads 0

pub data SpiReply : Type 0 where
  message_count : ℕ → SpiReply
  messages : List MidiMessage → SpiReply

-- The loop over the pads, from the index `i` on.
unfoldable pub collect : List ℕ → ℕ → List MidiMessage
unfolding pad_index_to_note
collect [] i = []
collect (v ∷ vs) i =
    let rest = collect vs (i + 1) in
    if v == 0
    then rest
    else record { cmd = note_on_command; note = pad_index_to_note i; velocity = v } ∷ rest

-- The same loop: a pad whose hit is taken is reset.
unfoldable pub reset_hits : List ℕ → List ℕ
reset_hits [] = []
reset_hits (v ∷ vs) = (if v == 0 then v else 0) ∷ reset_hits vs

unfoldable pub handle_data_received : SpiState → ℕ → SpiState × Option SpiReply
unfolding collect reset_hits
handle_data_received st cmd =
    let found = collect st.pending 0 in
    if cmd == 170
    then (
      record { buffer = found; pending = reset_hits st.pending },
      some (message_count (length found)),
    )
    else if (cmd == 85) && ltb 0 (length st.buffer)
    then (record st { buffer = [] }, some (messages st.buffer))
    else (st, none)

unfoldable pub spi_send_note_on : SpiState → ℕ → ℕ → SpiState
unfolding gh_note_to_pad_id
spi_send_note_on st note velocity = elim (gh_note_to_pad_id note) [
  | none ↦ st
  | some pad ↦ record st { pending = set st.pending pad velocity }
]

-- What a host hears of a note: the velocity of its first message, or 0.
abbrev pub heard : List MidiMessage → ℕ → ℕ
heard [] n = 0
heard (m ∷ ms) n = if m.note == n then m.velocity else heard ms n

-- How many pads were hit.
abbrev pub hits_count : List ℕ → ℕ
hits_count [] = 0
hits_count (v ∷ vs) = if v == 0 then hits_count vs else hits_count vs + 1

other_note :
    (i p : ℕ)
    → i < 6
    → p < 6
    → (i < p) ⊎ (p < i)
    → (pad_index_to_note i == pad_index_to_note p) ≡ false
other_note i p hi hp ne = elim (Bool-cases (pad_index_to_note i == pad_index_to_note p)) [
  | inl e ↦ let s = same_note i p hi hp (ground arith) in absurd (ground (arith, s, ne))
  | inr e ↦ e
]

heard-after :
    (vs : List ℕ) (i p : ℕ)
    → i + length vs ≤ 6
    → p < i
    → heard (collect vs i) (pad_index_to_note p) ≡ 0
unfolding collect
heard-after [] i p h lt = refl
heard-after (v ∷ vs) i p h lt =
    let ih = heard-after vs (i + 1) p (omega arith) (omega arith) in
    let ne = other_note i p (omega arith) (omega arith) (inr lt) in
    elim (Bool-cases (v == 0)) [ inl e ↦ rw e ih | inr e ↦ rw (e, ne) ih ]

heard-collect :
    (vs : List ℕ) (i p : ℕ)
    → i + length vs ≤ 6
    → p < length vs
    → heard (collect vs i) (pad_index_to_note (i + p)) ≡ get_or vs p 0
unfolding collect
heard-collect [] i p h lt = absurd (omega arith)
heard-collect (v ∷ vs) i zero h lt =
    let later = heard-after vs (i + 1) i (omega arith) (omega arith) in
    let self : (pad_index_to_note i == pad_index_to_note i) ≡ true = ground arith in
    let here : i + zero ≡ i = omega arith in
    elim (Bool-cases (v == 0)) [
      | inl e ↦ let z : v ≡ 0 = ground arith in rw (here, e) (later ∙ sym z)
      | inr e ↦ rw (here, e, self)
    ]
heard-collect (v ∷ vs) i (suc p) h lt =
    let ih = heard-collect vs (i + 1) p (omega arith) (omega arith) in
    let same : i + 1 + p ≡ i + suc p = omega arith in
    let ne = other_note i (i + suc p) (omega arith) (omega arith) (inl (omega arith)) in
    elim (Bool-cases (v == 0)) [ inl e ↦ rw (e, ← same) ih | inr e ↦ rw (e, ne, ← same) ih ]

length-collect : (vs : List ℕ) (i : ℕ) → length (collect vs i) ≡ hits_count vs
unfolding collect
length-collect [] i = refl
length-collect (v ∷ vs) i = let ih = length-collect vs (i + 1) in ground (arith, ih)

reset_all : (vs : List ℕ) → reset_hits vs ≡ replicate (length vs) 0
unfolding reset_hits
reset_all [] = refl
reset_all (v ∷ vs) =
    let zero_left : (if v == 0 then v else 0) ≡ 0 = ground arith in ap₂ ◌∷◌ zero_left (reset_all vs)

-- With six pads of which one was hit: the host's request 0xAA is answered by the number of hit
-- pads and 0x55 then by one message for each, in which each pad's note has the pad's velocity
-- (none if it was not hit), and afterwards nothing is pending or buffered.
pub host_hears :
    (st : SpiState) (p : ℕ)
    → length st.pending ≡ 6
    → 0 < hits_count st.pending
    → p < 6
    → let asked = handle_data_received st 170 in
      let read = handle_data_received asked.0 85 in
      (asked.1 ≡ some (message_count (hits_count st.pending)))
      × (read.1 ≡ some (messages asked.0.buffer))
      × (length asked.0.buffer ≡ hits_count st.pending)
      × (heard asked.0.buffer (pad_index_to_note p) ≡ get_or st.pending p 0)
      × (read.0 ≡ record { buffer = []; pending = no_hits })
unfolding handle_data_received
host_hears st p size some_hit lt =
    let n = length-collect st.pending 0 in
    let filled : ltb 0 (length (collect st.pending 0)) ≡ true = ground (arith, n) in
    let all = reset_all st.pending in
    let plain : p ≡ 0 + p = omega arith in
    (
      rw n refl,
      rw filled refl,
      n,
      ap (λ q. heard (collect st.pending 0) (pad_index_to_note q)) plain
          ∙ heard-collect st.pending 0 p (omega arith) (omega arith),
      rw (filled, all, size) refl,
    )
