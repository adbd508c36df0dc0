-- ===== src/Drum/Kit/Evaluate/Choke.antt =====
-- The pressure that a choke leaves on its notes.
use eaves_drum.Base.{
  ℕ, zero, suc, ◌+◌, ◌≡◌, refl, ap, ap₂, inl, inr, ◌∙◌, Bool, Bool-cases, replicate, false, ◌||◌,
  List, [], ◌∷◌, ◌++◌, ◌==◌, if◌then◌else◌, arith,
}
use eaves_drum.Drum.Settings.{Zones, at}
use eaves_drum.Drum.Kit.Notes.{MidiMessage, note_on, note_off, after_touch, control_change}
use eaves_drum.Drum.Kit.Evaluate.{after_touches, send_choke}

-- The pressure on a note after some messages, from the pressure before.
unfoldable pub pressure : ℕ → ℕ → List MidiMessage → ℕ
pressure note p [] = p
pressure note p (after_touch n v ∷ ms) = pressure note (if n == note then v else p) ms
pressure note p (_ ∷ ms) = pressure note p ms

-- A zone among the next ones sounds the note.
unfoldable pub is_among : ℕ → ℕ → ℕ → Zones ℕ → Bool
is_among note zero i notes = false
is_among note (suc k) i notes = (at notes i == note) || is_among note k (i + 1) notes

pressure-append :
    (note : ℕ) (xs ys : List MidiMessage) (p : ℕ)
    → pressure note p (xs ++ ys) ≡ pressure note (pressure note p xs) ys
unfolding pressure
pressure-append note [] ys p = refl
pressure-append note (note_on n v ∷ xs) ys p = pressure-append note xs ys p
pressure-append note (note_off n ∷ xs) ys p = pressure-append note xs ys p
pressure-append note (after_touch n v ∷ xs) ys p = pressure-append note xs ys _
pressure-append note (control_change c v ∷ xs) ys p = pressure-append note xs ys p

pressure-after_touches :
    (note p v k i : ℕ) (notes : Zones ℕ)
    → pressure note p (after_touches k i v notes) ≡ (if is_among note k i notes then v else p)
unfolding pressure after_touches is_among
pressure-after_touches note p v zero i notes = refl
pressure-after_touches note p v (suc k) i notes = ground (
  arith,
  pressure-after_touches note v v k (i + 1) notes,
  pressure-after_touches note p v k (i + 1) notes,
)

-- The pressures that some messages give a note, in their order.
unfoldable pub heard : ℕ → List MidiMessage → List ℕ
heard note [] = []
heard note (after_touch n v ∷ ms) = let rest = heard note ms in if n == note then v ∷ rest else rest
heard note (_ ∷ ms) = heard note ms

-- How many of the next zones sound the note.
unfoldable pub zones_of : ℕ → ℕ → ℕ → Zones ℕ → ℕ
zones_of note zero i notes = 0
zones_of note (suc k) i notes =
    let rest = zones_of note k (i + 1) notes in if at notes i == note then suc rest else rest

heard-append :
    (note : ℕ) (xs ys : List MidiMessage) → heard note (xs ++ ys) ≡ heard note xs ++ heard note ys
unfolding heard
heard-append note [] ys = refl
heard-append note (note_on n v ∷ xs) ys = heard-append note xs ys
heard-append note (note_off n ∷ xs) ys = heard-append note xs ys
heard-append note (after_touch n v ∷ xs) ys = elim (Bool-cases (n == note)) [
  | inl e ↦ rw e (ap (◌∷◌ v) (heard-append note xs ys))
  | inr e ↦ rw e (heard-append note xs ys)
]
heard-append note (control_change c v ∷ xs) ys = heard-append note xs ys

heard-after_touches :
    (note v k i : ℕ) (notes : Zones ℕ)
    → heard note (after_touches k i v notes) ≡ replicate (zones_of note k i notes) v
unfolding heard after_touches zones_of
heard-after_touches note v zero i notes = refl
heard-after_touches note v (suc k) i notes = elim (Bool-cases (at notes i == note)) [
  | inl e ↦ rw e (ap (◌∷◌ v) (heard-after_touches note v k (i + 1) notes))
  | inr e ↦ rw e (heard-after_touches note v k (i + 1) notes)
]

-- A choke gives each note the pressure 127 once for each active zone that sounds it, and then 0
-- as often; it leaves the note of each active zone at 0, and the pressure of other notes as it was.
pub choke_releases :
    (note p n : ℕ) (notes : Zones ℕ)
    → (heard note (send_choke n notes)
        ≡ replicate (zones_of note n 0 notes) 127 ++ replicate (zones_of note n 0 notes) 0)
      × (pressure note p (send_choke n notes) ≡ (if is_among note n 0 notes then 0 else p))
unfolding send_choke
choke_releases note p n notes =
    let first = pressure-after_touches note p 127 n 0 notes in
    let e =
      pressure-append note (after_touches n 0 127 notes) (after_touches n 0 0 notes) p
      ∙ pressure-after_touches note _ 0 n 0 notes in
    (
      heard-append note (after_touches n 0 127 notes) (after_touches n 0 0 notes)
          ∙ ap₂ ◌++◌ (heard-after_touches note 127 n 0 notes)
              (heard-after_touches note 0 n 0 notes),
      ground (arith, e, first),
    )
