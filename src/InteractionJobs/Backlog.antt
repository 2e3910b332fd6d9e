-- ===== src/InteractionJobs/Backlog.antt =====
-- `getDiscordInteractionBacklogSummary`
use info_room_reservation_si.Prelude.{
  ℕ, ◌-◌, ◌≤◌, ◌≡◌, refl, Bool, ◌&&◌, ◌||◌, Option, none, some, List, [], ◌∷◌, Bool-cases, inl, inr,
  length, filter, arith, All, leb, if◌then◌else◌,
}
use info_room_reservation_si.InteractionJobs.{
  JobRow, JobTables, is_acknowledged, is_pending, is_processing, is_retry,
}

pub record BacklogSummary : Type 0 where
  pub count : ℕ
  pub oldest_age_ms : Option ℕ
  pub oldest_created_at : Option ℕ

abbrev pub is_backlog : JobRow → Bool
is_backlog row =
    is_acknowledged row.handshake_status
    && (is_pending row.status || (is_processing row.status || is_retry row.status))

-- `_min` of the instants of creation
abbrev earlier : ℕ → Option ℕ → Option ℕ
earlier a none = some a
earlier a (some b) = if leb a b then some a else some b

unfoldable pub min_created_at : List JobRow → Option ℕ
min_created_at [] = none
min_created_at (row ∷ rows) = earlier row.created_at (min_created_at rows)

-- Subtraction on whole numbers stops at 0, as the maximum with 0 does.
abbrev age_at : ℕ → Option ℕ → Option ℕ
age_at now none = none
age_at now (some created_at) = some (now - created_at)

unfoldable pub get_discord_interaction_backlog_summary : ℕ → JobTables → BacklogSummary
unfolding min_created_at
get_discord_interaction_backlog_summary now s =
    let backlog = filter is_backlog s.jobs in
    record {
      count = length backlog;
      oldest_age_ms = age_at now (min_created_at backlog);
      oldest_created_at = min_created_at backlog;
    }

-- No age without a backlog, and none of the given rows is older than the age.
abbrev pub IsOldest : ℕ → List JobRow → Option ℕ → Type 0
IsOldest now rows none = rows ≡ []
IsOldest now rows (some age) = All (λ row. now - row.created_at ≤ age) rows

All-younger :
    (now : ℕ) (rows : List JobRow) (a b : ℕ)
    → All (λ row. now - row.created_at ≤ a) rows
    → a ≤ b
    → All (λ row. now - row.created_at ≤ b) rows
All-younger now [] a b h e = tt
All-younger now (row ∷ rows) a b h e = (omega arith, All-younger now rows a b h.1 e)

IsOldest-cons :
    (now : ℕ) (row : JobRow) (rows : List JobRow) (oldest : Option ℕ)
    → IsOldest now rows (age_at now oldest)
    → IsOldest now (row ∷ rows) (age_at now (earlier row.created_at oldest))
IsOldest-cons now row rows none h = rw h (omega arith, tt)
IsOldest-cons now row rows (some b) h = elim (Bool-cases (leb row.created_at b)) [
  | inl e ↦
      rw e (omega arith, All-younger now rows (now - b) (now - row.created_at) h (ground arith))
  | inr e ↦ rw e (ground arith, h)
]

IsOldest-min_created_at :
    (now : ℕ) (rows : List JobRow) → IsOldest now rows (age_at now (min_created_at rows))
unfolding min_created_at
IsOldest-min_created_at now [] = refl
IsOldest-min_created_at now (row ∷ rows) =
    IsOldest-cons now row rows (min_created_at rows) (IsOldest-min_created_at now rows)

-- No job of the backlog is older than the age that is reported, and there is none if no age is.
pub get_discord_interaction_backlog_summary-IsOldest :
    (now : ℕ) (s : JobTables)
    → IsOldest now
        (filter is_backlog s.jobs)
        (get_discord_interaction_backlog_summary now s).oldest_age_ms
unfolding get_discord_interaction_backlog_summary
get_discord_interaction_backlog_summary-IsOldest now s =
    IsOldest-min_created_at now (filter is_backlog s.jobs)
