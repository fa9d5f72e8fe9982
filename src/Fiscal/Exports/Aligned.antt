-- ===== src/Fiscal/Exports/Aligned.antt =====
-- The FEC and the archive after `align_controlled_exports`.
use solo_lmnp.Prelude.{
  ◌≤◌, ◌≡◌, refl, sym, ap, ◌∙◌, Bool, false, some, [], ◌∷◌, Bool-cases, inl, inr,
}
use solo_lmnp.Prelude.Text.{Text, codes, same_text, same_text_refl, same_text-eq}
use solo_lmnp.Fiscal.Trust.{posture_bloquee, Slot, export_slot, controlled_fec_posture}
use solo_lmnp.Fiscal.Trust.Postures.{rank, controlled_fec_posture-rank}
use solo_lmnp.Fiscal.Exports.{
  Exports, Slots, stamp_slots, slot_of, set_slot, liasse_slot, align_controlled_exports,
}

slot_of-set_slot :
    (key : Text) (slot default : Slot) (l : Slots)
    → slot_of key default (set_slot key slot l) ≡ slot
unfolding slot_of set_slot
slot_of-set_slot key slot default [] = rw (same_text_refl key) refl
slot_of-set_slot key slot default (s ∷ rest) = elim (Bool-cases (same_text s.0 key)) [
  | inl e ↦ rw (e, same_text_refl key) refl
  | inr e ↦ rw (e, e) (slot_of-set_slot key slot default rest)
]

slot_of-set_other :
    (key other : Text) (slot default : Slot) (l : Slots)
    → same_text other key ≡ false
    → slot_of key default (set_slot other slot l) ≡ slot_of key default l
unfolding slot_of set_slot
slot_of-set_other key other slot default [] h = rw h refl
slot_of-set_other key other slot default (s ∷ rest) h = elim (Bool-cases (same_text s.0 other)) [
  | inl e ↦
      let same = ap (λ t. same_text t key) (same_text-eq s.0 other e) ∙ h in rw (e, h, same) refl
  | inr e ↦ elim (Bool-cases (same_text s.0 key)) [
    | inl k ↦ rw (e, k) refl
    | inr k ↦ rw (e, k) (slot_of-set_other key other slot default rest h)
  ]
]

-- After the alignment the FEC and the archive have one slot, whose posture is not above the posture
-- of the liasse, and the slot of the liasse is as it was read.
pub align-fec_le_liasse :
    (exports : Exports) (year_closed fec_blocked : Bool) (default : Slot)
    → (slot_of (codes "archive") default (align_controlled_exports exports year_closed fec_blocked)
        ≡ slot_of (codes "fec") default (align_controlled_exports exports year_closed fec_blocked))
      × (rank
            (slot_of
              (codes "fec")
              default
              (align_controlled_exports exports year_closed fec_blocked)).posture
          ≤ rank (liasse_slot (align_controlled_exports exports year_closed fec_blocked)).posture)
      × (liasse_slot (align_controlled_exports exports year_closed fec_blocked)
          ≡ liasse_slot (stamp_slots exports))
unfolding align_controlled_exports liasse_slot export_slot
align-fec_le_liasse exports y b default =
    let stamped = stamp_slots exports in
    let fec = controlled_fec_posture (some (liasse_slot stamped).posture) y b in
    let shared = export_slot (some fec) in
    let first = set_slot (codes "fec") shared stamped in
    let archive_eq = slot_of-set_slot (codes "archive") shared default first in
    let fec_eq =
      slot_of-set_other (codes "fec") (codes "archive") shared default first refl
      ∙ slot_of-set_slot (codes "fec") shared default stamped in
    let none = export_slot (some posture_bloquee) in
    let liasse_eq =
      slot_of-set_other (codes "liasse") (codes "archive") shared none first refl
      ∙ slot_of-set_other (codes "liasse") (codes "fec") shared none stamped refl in
    let below = controlled_fec_posture-rank (some (liasse_slot stamped).posture) y b in
    (archive_eq ∙ sym fec_eq, rw (fec_eq, liasse_eq) below, liasse_eq)
