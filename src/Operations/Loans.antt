-- ===== src/Operations/Loans.antt =====
-- Which action may put a registered loan on account 164: backend/app/domain/loans/posting.py.
use solo_lmnp.Prelude.{
  ℕ, ◌≡◌, ◌↔◌, refl, inl, inr, Bool, true, false, ◌&&◌, ◌||◌, not, Option, none, some,
  if◌then◌else◌, ltb, Bool-cases,
}

pub data PostingPath : Type 0 where
  property_entry funding : PostingPath

-- Whether an exercise is not there, or a day is not before it.
abbrev pub is_not_before : ℕ → Option ℕ → Bool
is_not_before start_date none = true
is_not_before start_date (some exercise_start) = not (ltb start_date exercise_start)

unfoldable pub choose_posting_path : ℕ → Option ℕ → Bool → PostingPath
choose_posting_path start_date exercise_start property_booked =
    if property_booked || is_not_before start_date exercise_start then funding else property_entry

unfoldable pub funding_before_entry_refused : ℕ → ℕ → Bool → Bool
funding_before_entry_refused start_date exercise_start property_booked =
    ltb start_date exercise_start && not property_booked

unfoldable pub entry_outstanding_allowed : ℕ → ℕ → Bool
entry_outstanding_allowed start_date exercise_start = ltb start_date exercise_start

-- In an exercise, a loan takes the path of the drawdown exactly when the drawdown is not refused, and
-- the path of the property entry only where its outstanding capital is allowed there.
pub choose_posting_path-allowed :
    (start_date exercise_start : ℕ) (property_booked : Bool)
    → (choose_posting_path start_date (some exercise_start) property_booked ≡ funding
        ↔ funding_before_entry_refused start_date exercise_start property_booked ≡ false)
      × (choose_posting_path start_date (some exercise_start) property_booked ≡ property_entry
          → entry_outstanding_allowed start_date exercise_start ≡ true)
unfolding choose_posting_path funding_before_entry_refused entry_outstanding_allowed
choose_posting_path-allowed start_date exercise_start true =
    elim (Bool-cases (ltb start_date exercise_start)) [
      | inl e ↦ rw e ((λ h. refl, λ h. refl), λ h. cc)
      | inr e ↦ rw e ((λ h. refl, λ h. refl), λ h. cc)
    ]
choose_posting_path-allowed start_date exercise_start false =
    elim (Bool-cases (ltb start_date exercise_start)) [
      | inl e ↦ rw e ((λ h. cc, λ h. cc), λ h. refl)
      | inr e ↦ rw e ((λ h. refl, λ h. refl), λ h. cc)
    ]
