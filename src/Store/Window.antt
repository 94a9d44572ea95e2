-- ===== src/Store/Window.antt =====
-- `periodWindow` of packages/engine/src/store.ts: fixed windows, as the period enforcer has them.
pub mod Bounds
use t3_spend.Prelude.{ℕ, ◌+◌, ◌-◌, ◌*◌, ◌/◌, ltb, if◌then◌else◌}

pub record PeriodWindow : Type 0 where
  pub start : ℕ
  pub resets_at : ℕ

unfoldable pub period_window : ℕ → ℕ → ℕ → PeriodWindow
period_window start_date period_seconds now =
    let k = (now - start_date) / period_seconds in
    let start = start_date + k * period_seconds in
    if ltb now start_date
    then record { start = start_date; resets_at = start_date + period_seconds }
    else record { start = start; resets_at = start + period_seconds }
