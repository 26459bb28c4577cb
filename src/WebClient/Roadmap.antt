-- ===== src/WebClient/Roadmap.antt =====
-- apps/web-client/src/features/issue/components/Roadmap/Roadmap.tsx: the lane of an epic in the six
-- columns from July to December. `utc_month` stands for
-- `new Date(date + "T00:00:00Z").getUTCMonth()`, a number from 0 to 11 for a date that is one.
use jira_microservices_lab.Common.{
  ℕ, ◌+◌, ◌-◌, ◌%◌, ◌≤◌, Text, Option, none, some, min, [], ◌∷◌, arith,
}

-- The larger of two numbers.
abbrev max : ℕ → ℕ → ℕ
max m n = m + (n - m)

pub record Lane : Type 0 where
  pub start : ℕ
  pub span : ℕ

module _ (utc_month : Text → ℕ) where
  -- A date that is missing, or empty, gives way to another month.
  abbrev pub month_or : Option Text → ℕ → ℕ
  month_or none other = other
  month_or (some []) other = other
  month_or (some (c ∷ s)) other = utc_month (c ∷ s)

  abbrev pub start_month : Option Text → ℕ → ℕ
  start_month start_date index = month_or start_date (index % 4 + 6)

  abbrev pub end_month : Option Text → ℕ → ℕ
  end_month target_date start = month_or target_date (start + 1)

  -- `startMonth - 5` and `endMonth - 5 + 1` may be negative, where the maximum with 1, or with more,
  -- does not depend on by how much; `endMonth - 4` is the second.
  unfoldable pub lane_for : Option Text → Option Text → ℕ → Lane
  lane_for start_date target_date index =
      let from = start_month start_date index in
      let until = end_month target_date from in
      let start = max 1 (min 6 (from - 5)) in
      let end = max (start + 1) (min 7 (until - 4)) in
      record { start = start; span = max 1 (end - start) }

  -- A lane lies within the six columns: it starts in one of them and spans one at least, and its last
  -- is one of them.
  lane_for_bounds :
      (start_date target_date : Option Text) (index : ℕ)
      → (1 ≤ (lane_for start_date target_date index).start)
        × (1 ≤ (lane_for start_date target_date index).span)
        × ((lane_for start_date target_date index).start
              + (lane_for start_date target_date index).span
            ≤ 7)
  unfolding lane_for
  lane_for_bounds start_date target_date index = (omega arith, omega arith, omega arith)
