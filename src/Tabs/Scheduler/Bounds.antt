-- ===== src/Tabs/Scheduler/Bounds.antt =====
-- The validated parameters.
use roamux.Base.{ℕ, ◌≤◌, ◌<◌, min, ◌≡◌, ◌⊎◌, Bool, true, false, ◌&&◌, arith, leb, ℤ, pos, negsuc}
use roamux.Tabs.Scheduler.{from_milliseconds}

abbrev in_range : ℕ → ℕ → ℤ → Bool
in_range lo hi (pos x) = leb lo x && leb x hi
in_range lo hi (negsuc x) = false

-- For every pair of `int`s the parameters meet the constructor's checks and the absolute bounds.
pub from_milliseconds_bounds :
    (i m : ℤ)
    → let p = from_milliseconds i m in
      (0 < p.min_spacing)
      × (p.min_spacing ≤ p.interval)
      × (250 ≤ p.interval)
      × (p.interval ≤ 600000)
      × (100 ≤ p.min_spacing)
unfolding from_milliseconds
from_milliseconds_bounds i m = ground arith

-- A value in its range is kept, but for the one relational clamp; a value out of its range is
-- replaced by the default, never by the nearest bound.
from_milliseconds_values :
    (i m : ℤ)
    → let p = from_milliseconds i m in
      (in_range 250 600000 i ≡ true → pos p.interval ≡ i)
      × (in_range 250 600000 i ≡ false → p.interval ≡ 5000)
      × (in_range 100 600000 m ≡ true → (pos p.min_spacing ≡ m) ⊎ (p.min_spacing ≡ p.interval))
      × (in_range 100 600000 m ≡ false → p.min_spacing ≡ min 750 p.interval)
unfolding from_milliseconds
from_milliseconds_values i m = (ground arith, ground arith, ground arith, ground arith)
