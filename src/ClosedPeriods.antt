-- ===== src/ClosedPeriods.antt =====
-- Which closed periods are due for a list to be sent: src/lib/closed-period-notifications.ts. How
-- `localeCompare` orders two dates is a parameter.
pub mod Selection
use info_room_reservation_si.Prelude.{
  sort_by, ℕ, ◌+◌, ◌*◌, ◌-◌, Bool, true, false, not, ◌&&◌, Option, none, some, List, [], ◌∷◌, Text,
  codes, text_eq, text_lt, filter, any, ltb, leb, if◌then◌else◌,
}
use info_room_reservation_si.Calendar.{to_kst_date}
use info_room_reservation_si.StudyPeriods.{StudyPeriod, eighth, first, period_eq}
use info_room_reservation_si.PeriodSettings.{PeriodSetting}
use info_room_reservation_si.PeriodWindow.{PeriodWindowSetting, is_period_window_closed}

abbrev pub closed_list_notification_kind : Text
closed_list_notification_kind = codes "CLOSED_LIST"

abbrev pub sending_delivery_stale_after_ms : ℕ
sending_delivery_stale_after_ms = 10 * 60 * 1000

pub data ClosedPeriodNotificationStatus : Type 0 where
  failed sent unknown abandoned pending pending_review sending : ClosedPeriodNotificationStatus

-- An absent time and `null` are both `none`.
pub record ClosedPeriodDeliverySnapshot : Type 0 where
  pub date : Text
  pub kind : Text
  pub next_attempt_at : Option ℕ
  pub status : ClosedPeriodNotificationStatus
  pub study_period : StudyPeriod
  pub updated_at : Option ℕ

-- A candidate has the fields of a setting.
unfoldable pub is_closed_period_for_notification : PeriodSetting → ℕ → Bool
is_closed_period_for_notification setting now =
    if text_lt (to_kst_date now) setting.date
    then false
    else is_period_window_closed
        (record {
          close_time = setting.close_time;
          date = setting.date;
          open_time = setting.open_time;
        })
        now

-- `updatedAt <= now - 10 minutes`, with the subtraction moved to the other side.
abbrev pub is_older : Option ℕ → ℕ → Bool
is_older none now = false
is_older (some updated_at) now = leb (updated_at + sending_delivery_stale_after_ms) now

abbrev pub is_sending : ClosedPeriodNotificationStatus → Bool
is_sending sending = true
is_sending _ = false

unfoldable pub is_stale_sending_delivery : ClosedPeriodDeliverySnapshot → ℕ → Bool
is_stale_sending_delivery delivery now =
    is_sending delivery.status && is_older delivery.updated_at now

abbrev pub is_later : Option ℕ → ℕ → Bool
is_later none now = false
is_later (some at) now = ltb now at

abbrev pub blocks_in : ClosedPeriodNotificationStatus → Option ℕ → ℕ → Bool
blocks_in pending next_attempt_at now = false
blocks_in failed next_attempt_at now = is_later next_attempt_at now
blocks_in _ next_attempt_at now = true

unfoldable pub is_delivery_blocking_automatic_send : ClosedPeriodDeliverySnapshot → ℕ → Bool
is_delivery_blocking_automatic_send delivery now =
    blocks_in delivery.status delivery.next_attempt_at now

unfoldable pub has_active_delivery : PeriodSetting → List ClosedPeriodDeliverySnapshot → ℕ → Bool
has_active_delivery setting deliveries now =
    any
      (λ delivery.
        text_eq delivery.date setting.date
        && (text_eq delivery.kind closed_list_notification_kind
            && (is_delivery_blocking_automatic_send delivery now
                && period_eq delivery.study_period setting.study_period)))
      deliveries

abbrev pub study_period_order : StudyPeriod → ℕ
study_period_order eighth = 0
study_period_order first = 1

pub data Ordering : Type 0 where
  less equal greater : Ordering

module _ (locale_compare : Text → Text → Ordering) where
  -- Whether the comparison is positive.
  unfoldable pub comes_after : PeriodSetting → PeriodSetting → Bool
  comes_after left right = elim (locale_compare left.date right.date) [
    | less ↦ false
    | greater ↦ true
    | equal ↦ ltb (study_period_order right.study_period) (study_period_order left.study_period)
  ]

  unfoldable pub select_closed_period_notification_candidates :
      List ClosedPeriodDeliverySnapshot → ℕ → List PeriodSetting → List PeriodSetting
  select_closed_period_notification_candidates deliveries now settings = sort_by comes_after (
      filter (λ s. not (has_active_delivery s deliveries now))
        (filter (λ s. is_closed_period_for_notification s now) (filter (λ s. s.enabled) settings)))
