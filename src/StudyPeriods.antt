-- ===== src/StudyPeriods.antt =====
-- The two study periods of a day: src/lib/study-periods.ts.
use info_room_reservation_si.Prelude.{
  ℕ, ◌≡◌, refl, ◌↔◌, Bool, true, false, Option, none, some, List, [], ◌∷◌, any, Text, codes,
  text_eq, text_eq_sound, if◌then◌else◌, arith,
}

pub data StudyPeriod : Type 0 where
  eighth first : StudyPeriod

abbrev pub study_periods : List StudyPeriod
study_periods = eighth ∷ first ∷ []

abbrev pub default_period_capacity : ℕ
default_period_capacity = 10

abbrev pub period_text : StudyPeriod → Text
period_text eighth = codes "EIGHTH"
period_text first = codes "FIRST"

pub get_study_period_label : StudyPeriod → Text
get_study_period_label eighth = codes "8면학"
get_study_period_label first = codes "1면학"

-- `STUDY_PERIOD_VALUES.includes(value)`
unfoldable pub is_study_period : Text → Bool
unfolding text_eq
is_study_period value = any (λ p. text_eq (period_text p) value) study_periods

-- `none` is the InvalidStudyPeriodError.
unfoldable pub parse_study_period : Text → Option StudyPeriod
unfolding text_eq
parse_study_period value =
    if text_eq (codes "EIGHTH") value
    then some eighth
    else if text_eq (codes "FIRST") value
    then some first
    else none

unfoldable pub period_eq : StudyPeriod → StudyPeriod → Bool
period_eq eighth eighth = true
period_eq first first = true
period_eq _ _ = false

-- The position in `STUDY_PERIODS`.
abbrev pub study_period_rank : StudyPeriod → ℕ
study_period_rank eighth = 0
study_period_rank first = 1

pub period_eq_refl : (p : StudyPeriod) → period_eq p p ≡ true
unfolding period_eq
period_eq_refl eighth = refl
period_eq_refl first = refl

pub period_eq_sound : (p q : StudyPeriod) → period_eq p q ≡ true → p ≡ q
unfolding period_eq
period_eq_sound eighth eighth h = refl
period_eq_sound first first h = refl
period_eq_sound eighth first h = ground arith
period_eq_sound first eighth h = ground arith

pub parse_study_period-period_text : (p : StudyPeriod) → parse_study_period (period_text p) ≡ some p
unfolding parse_study_period
parse_study_period-period_text eighth = refl
parse_study_period-period_text first = refl

parse_study_period_sound :
    (value : Text) (p : StudyPeriod) → parse_study_period value ≡ some p → period_text p ≡ value
unfolding parse_study_period
parse_study_period_sound value p h =
    ground (arith, text_eq_sound (codes "EIGHTH") value, text_eq_sound (codes "FIRST") value)

-- A stored text is read as a period exactly when it is that period's name.
pub parse_study_period_iff :
    (value : Text) (p : StudyPeriod) → (parse_study_period value ≡ some p) ↔ (period_text p ≡ value)
parse_study_period_iff value p =
    (parse_study_period_sound value p, λ e. rw (← e) (parse_study_period-period_text p))
