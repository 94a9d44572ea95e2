-- ===== src/Store/Window/Bounds.antt =====
-- The window in which a moment lies.
use native.Mathlib.Nat.{div-mul-le_self, lt-div-mul-add}
use t3_spend.Prelude.{ℕ, ◌+◌, ◌-◌, ◌*◌, ◌/◌, false, refl, ◌≤◌, ◌<◌, ◌≡◌, ltb, arith}
use t3_spend.Store.Window.{period_window}

-- From the start date on, the window starts a whole number of periods after the start date, it
-- contains the moment, and it is one period long.
pub period_window-bounds :
    (start_date seconds now : ℕ)
    → 0 < seconds
    → start_date ≤ now
    → ((k : ℕ) × ((period_window start_date seconds now).start ≡ start_date + k * seconds))
      × ((period_window start_date seconds now).start ≤ now)
      × (now < (period_window start_date seconds now).resets_at)
      × ((period_window start_date seconds now).resets_at
          ≡ (period_window start_date seconds now).start + seconds)
unfolding period_window
period_window-bounds start_date seconds now positive begun =
    let below = div-mul-le_self (now - start_date) seconds in
    let above = lt-div-mul-add {a = now - start_date} positive in
    rw later
      (((now - start_date) / seconds, refl), omega (arith, below), omega (arith, above), refl)
  where
    later : ltb now start_date ≡ false
    later = ground arith
