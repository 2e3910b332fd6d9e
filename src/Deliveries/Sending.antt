-- ===== src/Deliveries/Sending.antt =====
-- How often the service of src/lib/closed-period-notification-service.ts calls the sender.
use info_room_reservation_si.Prelude.{
  ℕ, ◌≤◌, ◌≡◌, refl, Bool, true, false, Option, none, some, Text, arith,
}
use info_room_reservation_si.PeriodSettings.{PeriodSetting}
use info_room_reservation_si.Deliveries.{DeliveryRecord}
use info_room_reservation_si.Deliveries.Service.{
  delivery_skip, period_skip, send_unless, send_closed_period, deliver_if_claimed, deliver_at,
  deliver_claimed_period,
}
use info_room_reservation_si.Deliveries.Contracts.{
  SendResult, DeliveryRepository, SendRequest, SkipReason,
}

abbrev pub skips : Option SkipReason → Bool
skips none = false
skips (some reason) = true

module _ {S : Type 0} (repository : DeliveryRepository S) (sender : PeriodSetting → SendResult)
    (redact : Text → Text) (now : ℕ) (request : SendRequest) where
  deliver_at-calls :
      (claim : Option ℕ) (period : PeriodSetting) (s : S)
      → (deliver_at repository sender redact now request claim period s).calls ≤ 1
  deliver_at-calls none period s = omega arith
  deliver_at-calls (some claim) period s = omega arith

  deliver_if_claimed-calls :
      (period : Option PeriodSetting) (claimed : Option DeliveryRecord × S)
      → (deliver_if_claimed repository sender redact now request period claimed).calls ≤ 1
  unfolding deliver_claimed_period
  deliver_if_claimed-calls none (none, s) = omega arith
  deliver_if_claimed-calls none (some delivery, s) = omega arith
  deliver_if_claimed-calls (some period) (none, s) = omega arith
  deliver_if_claimed-calls (some period) (some delivery, s) =
      deliver_at-calls delivery.updated_at period s

  send_unless-calls :
      (first second : Option SkipReason) (s : S)
      → (send_unless repository sender redact now first second request s).calls ≤ 1
  send_unless-calls (some reason) second s = omega arith
  send_unless-calls none (some reason) s = omega arith
  send_unless-calls none none s =
      deliver_if_claimed-calls (repository.get_period request.date request.study_period s)
        (repository.claim_delivery request.date request.study_period s)

  -- One request calls the sender at most once.
  pub send_closed_period-calls :
      (s : S) → (send_closed_period repository sender redact now request s).calls ≤ 1
  unfolding send_closed_period
  send_closed_period-calls s =
      send_unless-calls
        (period_skip (repository.get_period request.date request.study_period s) now)
        (delivery_skip request.manual (repository.get_delivery request.date request.study_period s)
          now)
        s

  send_unless-skips :
      (first second : Option SkipReason) (s : S)
      → skips second ≡ true
      → ((send_unless repository sender redact now first second request s).calls ≡ 0)
        × ((send_unless repository sender redact now first second request s).state ≡ s)
  send_unless-skips none (some reason) s e = (refl, refl)
  send_unless-skips (some first) (some reason) s e = (refl, refl)
  send_unless-skips first none s e = ground arith

  -- A delivery whose status is a reason not to send is left alone.
  pub send_closed_period-skips :
      (s : S)
      → skips (
          delivery_skip request.manual
            (repository.get_delivery request.date request.study_period s)
            now)
        ≡ true
      → ((send_closed_period repository sender redact now request s).calls ≡ 0)
        × ((send_closed_period repository sender redact now request s).state ≡ s)
  unfolding send_closed_period
  send_closed_period-skips s e =
      send_unless-skips
        (period_skip (repository.get_period request.date request.study_period s) now)
        (delivery_skip request.manual (repository.get_delivery request.date request.study_period s)
          now)
        s e
