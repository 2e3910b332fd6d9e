-- ===== src/Sanctions/Standing.antt =====
-- How a sanctioned student stands.
use info_room_reservation_si.Prelude.{
  ℕ, ◌≡◌, refl, ap, sym, inl, inr, Bool, true, Option, none, some, List, Text, text_eq,
  text_eq_sound, find, find_sound, arith, ==_iff, subst,
}
use info_room_reservation_si.Reservations.{
  BookingStatus, Reason, ReservationStore, ok, error, ReserveStudyPeriodInput, is_restricted,
  is_restricted_status,
}
use info_room_reservation_si.Reservations.Service.{reserve_study_period}
use info_room_reservation_si.Database.{
  DatabaseActor, ReservationRow, UserRow, Database, parse_booking_status,
}
use info_room_reservation_si.PrismaStore.{prisma_user, prisma_store}
use info_room_reservation_si.Sanctions.{
  SanctionStatus, banned, restricted, shadow_banned, sanction_status_text, SanctionInput,
  ok_sanction, sanction_end, assert_restrictable_user, optional_text_eq, instant_eq, same_sanction,
  has_user_id, update_user_row, find_student_id, sanctioned,
}
use info_room_reservation_si.Sanctions.Transactions.{
  sanction_user, apply_to, apply_administrator_user_sanction,
}
use info_room_reservation_si.Sanctions.Applied.{
  find-update_user_row, IsApplied, apply_in_transaction-IsApplied,
}

-- The user's row as the input asks for it.
pub record IsSanctioned (input : SanctionInput) (target_id : Text) (user : UserRow) (s : Database)
    : Type 0 where
  pub known : find (has_user_id target_id) s.users ≡ some user
  pub status : user.booking_status ≡ sanction_status_text input.status
  pub until : user.restricted_until ≡ sanction_end input
  pub reason : user.restriction_reason ≡ some input.reason
  pub allowed : assert_restrictable_user input.actor_id user ≡ none

instant_eq_sound : (a b : Option ℕ) → instant_eq a b ≡ true → a ≡ b
instant_eq_sound none none h = refl
instant_eq_sound none (some b) h = cc
instant_eq_sound (some a) none h = cc
instant_eq_sound (some a) (some b) h = ground (arith, ==_iff a b)

optional_text_eq_sound : (a : Option Text) (b : Text) → optional_text_eq a b ≡ true → a ≡ some b
optional_text_eq_sound none b h = cc
optional_text_eq_sound (some a) b h = ap some (text_eq_sound a b h)

pub user-id :
    (id : Text) (users : List UserRow) (user : UserRow)
    → find (has_user_id id) users ≡ some user
    → user.id ≡ id
user-id id users user h = text_eq_sound user.id id (find_sound (has_user_id id) users user h)

module _ (new_action_id : Database → Text) (input : SanctionInput) where
  same-IsSanctioned :
      (target_id : Text) (target : UserRow) (s : Database)
      → find (has_user_id target_id) s.users ≡ some target
      → assert_restrictable_user input.actor_id target ≡ none
      → same_sanction target input (sanction_end input) ≡ true
      → IsSanctioned input target_id target s
  unfolding same_sanction
  same-IsSanctioned target_id target s known allowed same = record {
    known = known;
    status = text_eq_sound target.booking_status (sanction_status_text input.status) (ground arith);
    until = instant_eq_sound target.restricted_until (sanction_end input) (ground arith);
    reason = optional_text_eq_sound target.restriction_reason input.reason (ground arith);
    allowed = allowed;
  }

  written-IsSanctioned :
      (target_id before : Text) (n : ℕ) (user target : UserRow) (s s' : Database)
      (cancelled : ℕ × List ReservationRow)
      → find (has_user_id target_id) s.users ≡ some target
      → assert_restrictable_user input.actor_id target ≡ none
      → (ok_sanction before n user, s')
        ≡ sanction_user new_action_id input target_id target cancelled s
      → IsSanctioned input target_id user s'
  unfolding assert_restrictable_user
  written-IsSanctioned target_id before n user target s s' cancelled known allowed e =
      let user_is : user ≡ sanctioned input target = ground arith in
      let users : s'.users ≡ update_user_row target_id (sanctioned input) s.users =
        ap (λ x. x.1.users) e in
      record {
        known =
            rw (users, user_is)
              (find-update_user_row target_id (sanctioned input) (λ u. refl) s.users target known);
        status = ap (λ (u : UserRow). u.booking_status) user_is;
        until = ap (λ (u : UserRow). u.restricted_until) user_is;
        reason = ap (λ (u : UserRow). u.restriction_reason) user_is;
        allowed = rw user_is allowed;
      }

  pub IsApplied-IsSanctioned :
      (target_id before : Text) (n : ℕ) (user : UserRow) (s s' : Database)
      → IsApplied new_action_id input target_id before n user s s'
      → IsSanctioned input target_id user s'
  IsApplied-IsSanctioned target_id before n user s s' a = elim a.change [
    | inl (unchanged, same_user, same) ↦
        rw (unchanged, same_user) (same-IsSanctioned target_id a.target s a.known a.allowed same)
    | inr (cancelled, e) ↦
        written-IsSanctioned target_id before n user a.target s s' cancelled a.known a.allowed e
  ]

  pub apply_to-IsSanctioned :
      (found : Option Text) (before : Text) (n : ℕ) (user : UserRow) (s s' : Database)
      → apply_to new_action_id input found s ≡ ok (ok_sanction before n user, s')
      → IsSanctioned input user.id user s'
  apply_to-IsSanctioned none before n user s s' h = absurd (ground arith)
  apply_to-IsSanctioned (some target_id) before n user s s' h =
      let v =
        IsApplied-IsSanctioned target_id before n user s s'
          (apply_in_transaction-IsApplied new_action_id input target_id before n user s s' h) in
      subst (λ id. IsSanctioned input id user s') (sym (user-id target_id s'.users user v.known)) v

-- The state that the booking reads.
abbrev pub booking_status_of : SanctionStatus → BookingStatus
booking_status_of banned = BookingStatus.banned
booking_status_of restricted = BookingStatus.restricted
booking_status_of shadow_banned = BookingStatus.shadow_banned

parse-sanction_status_text :
    (status : SanctionStatus)
    → parse_booking_status (sanction_status_text status) ≡ ok (booking_status_of status)
unfolding parse_booking_status text_eq
parse-sanction_status_text banned = refl
parse-sanction_status_text restricted = refl
parse-sanction_status_text shadow_banned = refl

prisma_user-IsSanctioned :
    (input : SanctionInput) (user_id : Text) (user : UserRow) (s : Database)
    → IsSanctioned input user_id user s
    → prisma_user user_id s
      ≡ ok (
          some (record {
            booking_status = booking_status_of input.status;
            restricted_until = sanction_end input;
          }))
unfolding prisma_user
prisma_user-IsSanctioned input user_id user s v =
    rw (v.known, v.status, v.until, parse-sanction_status_text input.status)

abbrev pub is_in_force : SanctionStatus → Option ℕ → ℕ → Bool
is_in_force banned until now = true
is_in_force restricted until now = is_restricted_status BookingStatus.restricted until now
is_in_force shadow_banned until now = true

abbrev pub refusal_of : SanctionStatus → Reason
refusal_of banned = Reason.restricted
refusal_of restricted = Reason.restricted
refusal_of shadow_banned = Reason.shadow_banned

refused :
    (store : ReservationStore Database) (booking : ReserveStudyPeriodInput) (s : Database)
    (status : SanctionStatus) (until : Option ℕ)
    → store.get_user_booking_state booking.user_id s
      ≡ ok (some (record { booking_status = booking_status_of status; restricted_until = until }))
    → is_in_force status until booking.now ≡ true
    → reserve_study_period store booking s ≡ ok (error (refusal_of status), s)
unfolding reserve_study_period is_restricted
refused store booking s banned until found r = rw found
refused store booking s restricted until found r = rw found (rw r refl)
refused store booking s shadow_banned until found r = rw found

module _ (new_action_id : Database → Text) (input : SanctionInput) (seen s s' : Database)
    (before : Text) (n : ℕ) (user : UserRow)
    (h : apply_administrator_user_sanction new_action_id input seen s
      ≡ ok (ok_sanction before n user, s')) where
  pub standing : IsSanctioned input user.id user s'
  standing =
      unfold apply_administrator_user_sanction in
      apply_to-IsSanctioned new_action_id input (find_student_id input.student_number seen) before n
        user s s' h

  -- After a sanction that succeeds, written now or found in force, the student's bookings are refused
  -- and change nothing: all of them under a ban or a shadow ban, and under a restriction those that
  -- come before its end, or all if it has none. The reason is that of the booking service, which
  -- tells a shadow ban from a restriction.
  pub reserve_study_period-apply_administrator_user_sanction :
      (actor : DatabaseActor) (new_id : Database → Text) (nonce_of : Text → Text) (at : ℕ)
      (booking : ReserveStudyPeriodInput)
      → booking.user_id ≡ user.id
      → is_in_force input.status (sanction_end input) booking.now ≡ true
      → reserve_study_period (prisma_store actor new_id nonce_of at) booking s'
        ≡ ok (error (refusal_of input.status), s')
  reserve_study_period-apply_administrator_user_sanction actor new_id nonce_of at booking e r =
      refused (prisma_store actor new_id nonce_of at) booking s' input.status (sanction_end input)
        (prisma_user-IsSanctioned input booking.user_id user s' (rw e standing)) r
