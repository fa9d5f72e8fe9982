-- ===== src/Fiscal/Exports.antt =====
-- The export slots as the screen keeps them: `align_controlled_exports` of
-- backend/app/domain/fiscal/output_status.py.
pub mod Aligned
use solo_lmnp.Prelude.{ℕ, Bool, Option, none, some, List, [], ◌∷◌, if◌then◌else◌}
use solo_lmnp.Prelude.Text.{Text, codes, same_text}
use solo_lmnp.Fiscal.Trust.{Posture, posture_bloquee, Slot, export_slot, controlled_fec_posture}

-- A mapping of exports to the posture that each slot names; `none` stands for a value that is no
-- dictionary, or that names no posture of `POSTURES`: either is read as Bloquée.
abbrev pub Exports : Type 0
Exports = List (Text × Option Posture)

abbrev pub Slots : Type 0
Slots = List (Text × Slot)

unfoldable pub stamp_slots : Exports → Slots
unfolding export_slot
stamp_slots [] = []
stamp_slots (e ∷ rest) = (e.0, export_slot e.1) ∷ stamp_slots rest

-- `stamped.get(key, default)`
unfoldable pub slot_of : Text → Slot → Slots → Slot
slot_of key default [] = default
slot_of key default (s ∷ rest) = if same_text s.0 key then s.1 else slot_of key default rest

-- `stamped[key] = slot`
unfoldable pub set_slot : Text → Slot → Slots → Slots
set_slot key slot [] = (key, slot) ∷ []
set_slot key slot (s ∷ rest) =
    if same_text s.0 key then (key, slot) ∷ rest else s ∷ set_slot key slot rest

unfoldable pub liasse_slot : Slots → Slot
unfolding slot_of export_slot
liasse_slot stamped = slot_of (codes "liasse") (export_slot (some posture_bloquee)) stamped

unfoldable pub align_controlled_exports : Exports → Bool → Bool → Slots
unfolding stamp_slots liasse_slot controlled_fec_posture export_slot set_slot
align_controlled_exports exports year_closed fec_blocked =
    let stamped = stamp_slots exports in
    let fec = controlled_fec_posture (some (liasse_slot stamped).posture) year_closed fec_blocked in
    set_slot (codes "archive") (export_slot (some fec))
      (set_slot (codes "fec") (export_slot (some fec)) stamped)
