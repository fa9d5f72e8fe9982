-- ===== src/Fiscal/Trust/Postures.antt =====
-- What a classification promises: what is final, and that the FEC never outranks the liasse.
use solo_lmnp.Prelude.{ℕ, ◌≤◌, ◌≡◌, refl, ◌↔◌, Bool, true, false, Option, none, some, arith}
use solo_lmnp.Prelude.Json.{Members}
use solo_lmnp.Fiscal.Validation.{Platform, is_validated, rules_aligned}
use solo_lmnp.Fiscal.Trust.{
  Trust, recherche, provisoire, declarable, Posture, posture_provisoire, posture_bloquee,
  posture_finale, resolve_trust, artifact_posture, controlled_fec_posture, export_slot,
  liasse_posture, or_false, classify, known,
}

-- Bloquée is the strictest posture.
abbrev pub rank : Posture → ℕ
rank posture_bloquee = 0
rank posture_provisoire = 1
rank posture_finale = 2

resolve_trust-declarable :
    (v a c : Bool) → (resolve_trust v a c ≡ declarable) ↔ ((v ≡ true) × (a ≡ true) × (c ≡ true))
unfolding resolve_trust
resolve_trust-declarable true true true = ground arith
resolve_trust-declarable true true false = ground arith
resolve_trust-declarable true false c = ground arith
resolve_trust-declarable false a c = ground arith

liasse_posture-final :
    (t : Trust) (c y p : Bool)
    → (liasse_posture t c y p ≡ posture_finale)
      ↔ ((t ≡ declarable) × (c ≡ true) × (y ≡ true) × (p ≡ true))
unfolding liasse_posture artifact_posture
liasse_posture-final declarable c y p = ground arith
liasse_posture-final provisoire c y p = ground arith
liasse_posture-final recherche c y p = ground arith

pub controlled_fec_posture-rank :
    (l : Option Posture) (y b : Bool) → rank (controlled_fec_posture l y b) ≤ rank (known l)
unfolding controlled_fec_posture
controlled_fec_posture-rank none y b = ground arith
controlled_fec_posture-rank (some posture_bloquee) y b = ground arith
controlled_fec_posture-rank (some posture_provisoire) y b = ground arith
controlled_fec_posture-rank (some posture_finale) y b = ground arith

controlled_fec_posture-final :
    (l : Posture) (y b : Bool)
    → (controlled_fec_posture (some l) y b ≡ posture_finale)
      ↔ ((l ≡ posture_finale) × (y ≡ true) × (b ≡ false))
unfolding controlled_fec_posture
controlled_fec_posture-final posture_bloquee y b = ground arith
controlled_fec_posture-final posture_provisoire y b = ground arith
controlled_fec_posture-final posture_finale y b = ground arith

-- Whatever stands no higher than a blocked posture is blocked.
download_mono :
    (p q : Posture)
    → rank p ≤ rank q
    → (export_slot (some p)).download ≡ true
    → (export_slot (some q)).download ≡ true
unfolding export_slot
download_mono posture_bloquee q h d = cc
download_mono p posture_provisoire h d = refl
download_mono p posture_finale h d = refl
download_mono posture_provisoire posture_bloquee h d = absurd (omega arith)
download_mono posture_finale posture_bloquee h d = absurd (omega arith)

-- The attestation of a vintage holds: it is complete, and it names the rules that are read.
abbrev pub IsAttested : Platform → Members → Type 0
IsAttested p validation = (is_validated p validation ≡ true) × (rules_aligned p validation ≡ true)

-- The liasse of a classification is final exactly when the vintage is attested, the copy complete,
-- the year closed and the output produced. The FEC is then final exactly when nothing of its own
-- blocks it.
pub classify-final :
    (p : Platform) (v : Members) (copy_complete year_closed produced : Bool)
    → (fec_blocked : Option Bool)
    → ((classify p v copy_complete year_closed produced fec_blocked).liasse.posture ≡ posture_finale
        ↔ (IsAttested p v × (copy_complete ≡ true) × (year_closed ≡ true) × (produced ≡ true)))
      × ((classify p v copy_complete year_closed produced fec_blocked).fec.posture ≡ posture_finale
          ↔ (((classify p v copy_complete year_closed produced fec_blocked).liasse.posture
                ≡ posture_finale)
              × (or_false fec_blocked ≡ false)))
unfolding classify export_slot
classify-final p v c y pr f =
    let trust = resolve_trust-declarable (is_validated p v) (rules_aligned p v) c in
    let liasse =
      liasse_posture-final (resolve_trust (is_validated p v) (rules_aligned p v) c) c y pr in
    let fec =
      controlled_fec_posture-final
        (liasse_posture (resolve_trust (is_validated p v) (rules_aligned p v) c) c y pr) y
        (or_false f) in
    (
      (
        λ h. let l = liasse.0 h in let t = trust.0 l.0 in ((t.0, t.1), l.1, l.2, l.3),
        λ h. liasse.1 (trust.1 (h.0.0, h.0.1, h.1), h.1, h.2, h.3),
      ),
      (λ h. ((fec.0 h).0, (fec.0 h).2), λ h. fec.1 (h.0, (liasse.0 h.0).2, h.1)),
    )

-- The FEC and the archive of a classification have one posture, which is never above the posture of
-- the liasse, and a slot can be downloaded exactly when it is not blocked.
pub classify-fec_le_liasse :
    (p : Platform) (v : Members) (copy_complete year_closed produced : Bool)
    → (fec_blocked : Option Bool)
    → (rank (classify p v copy_complete year_closed produced fec_blocked).fec.posture
        ≤ rank (classify p v copy_complete year_closed produced fec_blocked).liasse.posture)
      × ((classify p v copy_complete year_closed produced fec_blocked).archive
          ≡ (classify p v copy_complete year_closed produced fec_blocked).fec)
      × ((classify p v copy_complete year_closed produced fec_blocked).archive.download ≡ true
          → (classify p v copy_complete year_closed produced fec_blocked).liasse.download ≡ true)
unfolding classify export_slot
classify-fec_le_liasse p v c y pr f =
    let l = liasse_posture (resolve_trust (is_validated p v) (rules_aligned p v) c) c y pr in
    let below = controlled_fec_posture-rank (some l) y (or_false f) in
    (below, refl, download_mono (controlled_fec_posture (some l) y (or_false f)) l below)
