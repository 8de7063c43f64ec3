-- ===== src/Guild/Ranking/Limits.antt =====
-- The daily limits that a level and a rank give, and the progress towards the next level.
use sync_server.Prelude.{ℕ, ◌-◌, ◌*◌, ◌/◌, ◌≤◌, ◌<◌, ◌≡◌, refl, min, Bool, some, arith}
use sync_server.Prelude.Int.{
  ℤ, pos, max_ℤ, clamp, ◌≤ℤ◌, ◌<ℤ◌, i32_max, mul32, wrap32, ◌*ℤ◌, div_ℤ, as_u8, ◌-ℤ◌, sub32,
}
use native.Mathlib.Nat.{div-le_of_le-mul}
use sync_server.Guild.Ranking.{effective_daily_limit, level_progress_percent}

mul32_small : (a b : ℕ) → a * b ≤ i32_max → mul32 (pos a) (pos b) ≡ pos (a * b)
unfolding mul32 ◌*ℤ◌ wrap32
mul32_small a b h = ground arith

mul32_wrapped : (a b : ℕ) → i32_max < a * b → a * b < 4_294_967_296 → mul32 (pos a) (pos b) <ℤ pos 0
unfolding mul32 ◌*ℤ◌ wrap32
mul32_wrapped a b h k = ground arith

-- A product that fits in 31 bits: the limit is the level's, scaled by the percentage, rounded down.
effective_limit_scaled :
    (limit percent : ℕ) (overrides : Bool)
    → limit * percent ≤ i32_max
    → effective_daily_limit (some (pos limit)) (some (pos percent)) overrides
      ≡ some (pos (limit * percent / 100))
unfolding effective_daily_limit div_ℤ
effective_limit_scaled limit percent overrides h = rw (mul32_small limit percent h) (ground arith)

-- A product that wraps once into the sign bit: the limit is at most zero.
pub effective_limit_overflow :
    (limit percent : ℕ) (overrides : Bool)
    → i32_max < limit * percent
    → limit * percent < 4_294_967_296
    → (l : ℤ) × (effective_daily_limit (some (pos limit)) (some (pos percent)) overrides ≡ some l)
      × (l ≤ℤ pos 0)
unfolding effective_daily_limit div_ℤ
effective_limit_overflow limit percent overrides h k =
    (_, refl, ground (arith, mul32_wrapped limit percent h k))

sub32_small : (a b : ℕ) → a ≤ i32_max → b ≤ i32_max → sub32 (pos a) (pos b) ≡ pos a -ℤ pos b
unfolding sub32 wrap32 ◌-ℤ◌
sub32_small a b h k = ground arith

div_le : (p s : ℕ) → p ≤ s → 1 ≤ s → p * 100 / s ≤ 100
div_le p s h k = div-le_of_le-mul s (omega arith)

progress_core :
    (p s : ℕ)
    → p ≤ s
    → 1 ≤ s
    → s ≤ 21_474_836
    → as_u8 (div_ℤ (mul32 (pos p) (pos 100)) s) ≡ p * 100 / s
unfolding div_ℤ as_u8
progress_core p s h k l = rw (mul32_small p 100 (omega arith)) (ground (arith, div_le p s h k))

span_lem : (m n : ℕ) → m < n → n ≤ i32_max → max_ℤ (sub32 (pos n) (pos m)) (pos 1) ≡ pos (n - m)
unfolding sub32 wrap32 ◌-ℤ◌
span_lem m n h k = ground arith

progressed_lem :
    (a m s : ℕ)
    → a ≤ i32_max
    → m ≤ i32_max
    → clamp (sub32 (pos a) (pos m)) (pos 0) (pos s) ≡ pos (min (a - m) s)
unfolding sub32 wrap32 ◌-ℤ◌
progressed_lem a m s h k = ground arith

-- Between a level that begins at `m` days and the next at `n`, the progress is the whole percentage
-- of the span that has passed, and at most 100, as long as the span is below 21,474,837 days.
level_progress_exact :
    (a m n : ℕ)
    → a ≤ i32_max
    → m < n
    → n ≤ i32_max
    → n - m ≤ 21_474_836
    → (level_progress_percent (pos a) (pos m) (some (pos n)) ≡ min (a - m) (n - m) * 100 / (n - m))
      × (level_progress_percent (pos a) (pos m) (some (pos n)) ≤ 100)
unfolding level_progress_percent
level_progress_exact a m n ha h hn hs =
    let e : level_progress_percent (pos a) (pos m) (some (pos n))
        ≡ min (a - m) (n - m) * 100 / (n - m) =
      rw (span_lem m n h hn, progressed_lem a m (n - m) ha (omega arith))
        (progress_core (min (a - m) (n - m)) (n - m) (omega arith) (omega arith) hs) in
    (e, rw e (div_le (min (a - m) (n - m)) (n - m) (omega arith) (omega arith)))
