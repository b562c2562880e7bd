-- ===== src/Base/Float.antt =====
-- Python's numbers, as far as the exporter looks at them. A wall-clock time, a duration or another
-- `float` that the code keeps to six decimals is a count of millionths; `not_finite` stands for the
-- infinities and NaN. Sums and comparisons of finite values are exact here, while the source's
-- binary floats round.
use Prim.Native.Nat.{ℕ, ◌*◌}
use mathlib.Core.Bool.{Bool, true, false}
use ise_exporter_v.Base.Int.{ℤ, pos}

pub data PyFloat : Type 0 where
  finite : ℤ → PyFloat
  not_finite : PyFloat

-- math.isfinite(value) and value >= 0
abbrev pub is_valid_time : PyFloat → Bool
is_valid_time (finite (pos _)) = true
is_valid_time _ = false

-- A whole number of seconds as a time.
abbrev pub seconds : ℕ → ℕ
seconds n = n * 1000000
