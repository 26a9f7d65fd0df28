-- ===== src/Trig.antt =====
-- The coordinates of points on circles, which the drawings compute with Math.cos and Math.sin.
-- ECMAScript leaves their results to the implementation, so they are a parameter, as texts of the
-- numbers.
use cloud_weave.Prelude.{ℕ, String}

-- Of a point at `num / den` degrees, clockwise from the top, on the circle of a radius around a
-- center: its coordinates as they are and as rounded to two decimals, and what is a number of units
-- above or below one.
pub record Trig : Type 0 where
  pub x : (center radius num den : ℕ) → String
  pub y : (center radius num den : ℕ) → String
  pub x_rounded : (center radius num den : ℕ) → String
  pub y_rounded : (center radius num den : ℕ) → String
  pub plus : String → ℕ → String
  pub minus : String → ℕ → String
