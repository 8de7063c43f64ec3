-- ===== src/Prelude/Int.antt =====
-- Signed integers over the native numbers, under the library's names, and the 32-bit arithmetic of
-- Rust's `i32` as a release build computes it: the result wraps.
use Prim.Native.Nat.{ℕ, suc, ◌+◌, ◌-◌, ◌*◌, ◌/◌, ◌%◌, ◌≤◌, ◌<◌}
use mathlib.Core.Path.{◌≡◌}
use mathlib.Core.Bool.{Bool}
use native.Mathlib.Omega.{arith}
use sync_server.Prelude.Tests.{ltb, leb, ◌==◌, if◌then◌else◌}

-- `negsuc n` is -(n + 1).
pub data ℤ : Type 0 where
  pos : ℕ → ℤ
  negsuc : ℕ → ℤ

abbrev pub pos_part : ℤ → ℕ
pos_part (pos n) = n
pos_part (negsuc n) = 0

abbrev pub neg_part : ℤ → ℕ
neg_part (pos n) = 0
neg_part (negsuc n) = suc n

-- a - b, as an integer.
abbrev pub sub_ℕ : ℕ → ℕ → ℤ
sub_ℕ a b = if leb b a then pos (a - b) else negsuc (b - a - 1)

infixl 65 ◌+ℤ◌ ◌-ℤ◌
infixl 70 ◌*ℤ◌
infix 50 ◌≤ℤ◌ ◌<ℤ◌
unfoldable pub ◌+ℤ◌ : ℤ → ℤ → ℤ
a +ℤ b = sub_ℕ (pos_part a + pos_part b) (neg_part a + neg_part b)

unfoldable pub ◌-ℤ◌ : ℤ → ℤ → ℤ
a -ℤ b = sub_ℕ (pos_part a + neg_part b) (neg_part a + pos_part b)

unfoldable pub ◌*ℤ◌ : ℤ → ℤ → ℤ
a *ℤ b =
    sub_ℕ (pos_part a * pos_part b + neg_part a * neg_part b)
      (pos_part a * neg_part b + neg_part a * pos_part b)

-- Division by a positive number, towards zero.
unfoldable pub div_ℤ : ℤ → ℕ → ℤ
div_ℤ a n = sub_ℕ (pos_part a / n) (neg_part a / n)

abbrev pub ◌≤ℤ◌ : ℤ → ℤ → Type 0
a ≤ℤ b = pos_part a + neg_part b ≤ pos_part b + neg_part a

abbrev pub ◌<ℤ◌ : ℤ → ℤ → Type 0
a <ℤ b = pos_part a + neg_part b < pos_part b + neg_part a

abbrev pub ltb_ℤ : ℤ → ℤ → Bool
ltb_ℤ a b = ltb (pos_part a + neg_part b) (pos_part b + neg_part a)

abbrev pub leb_ℤ : ℤ → ℤ → Bool
leb_ℤ a b = leb (pos_part a + neg_part b) (pos_part b + neg_part a)

abbrev pub eqb_ℤ : ℤ → ℤ → Bool
eqb_ℤ a b = (pos_part a + neg_part b) == (pos_part b + neg_part a)

abbrev pub max_ℤ : ℤ → ℤ → ℤ
max_ℤ a b = if leb_ℤ a b then b else a

abbrev pub min_ℤ : ℤ → ℤ → ℤ
min_ℤ a b = if leb_ℤ a b then a else b

-- `a.clamp(lo, hi)`
abbrev pub clamp : ℤ → ℤ → ℤ → ℤ
clamp a lo hi = if ltb_ℤ a lo then lo else if ltb_ℤ hi a then hi else a

-- One lemma for each operation lets `omega` work with the operations shut, at any depth.
pub +ℤ_parts :
    (a b : ℤ)
    → pos_part (a +ℤ b) + neg_part a + neg_part b ≡ neg_part (a +ℤ b) + pos_part a + pos_part b
unfolding ◌+ℤ◌
+ℤ_parts a b = ground arith

pub -ℤ_parts :
    (a b : ℤ)
    → pos_part (a -ℤ b) + neg_part a + pos_part b ≡ neg_part (a -ℤ b) + pos_part a + neg_part b
unfolding ◌-ℤ◌
-ℤ_parts a b = ground arith

pub eq_of_parts : (a b : ℤ) → pos_part a + neg_part b ≡ pos_part b + neg_part a → a ≡ b
eq_of_parts a b h = ground arith

pub ruleset int_laws = (arith, +ℤ_parts, -ℤ_parts, eq_of_parts)

-- The values of an `i32`.
abbrev pub i32_max : ℕ
i32_max = 2_147_483_647

pub record IsI32 (x : ℤ) : Type 0 where
  pub below : pos_part x ≤ i32_max
  pub above : neg_part x ≤ i32_max + 1

-- The value that the low 32 bits stand for.
unfoldable pub wrap32 : ℤ → ℤ
wrap32 x =
    let bits = (pos_part x + (4_294_967_296 - neg_part x % 4_294_967_296)) % 4_294_967_296 in
    if leb bits i32_max then pos bits else negsuc (4_294_967_295 - bits)

-- In range nothing wraps.
pub wrap32_in_range : (x : ℤ) → IsI32 x → wrap32 x ≡ x
unfolding wrap32
wrap32_in_range x h = ground arith

pub wrap32-IsI32 : (x : ℤ) → IsI32 (wrap32 x)
unfolding wrap32
wrap32-IsI32 x = ground arith

unfoldable pub add32 : ℤ → ℤ → ℤ
add32 a b = wrap32 (a +ℤ b)

unfoldable pub sub32 : ℤ → ℤ → ℤ
sub32 a b = wrap32 (a -ℤ b)

unfoldable pub mul32 : ℤ → ℤ → ℤ
mul32 a b = wrap32 (a *ℤ b)

-- `i32::saturating_add` and `saturating_sub`.
unfoldable pub saturating_add : ℤ → ℤ → ℤ
saturating_add a b = clamp (a +ℤ b) (negsuc i32_max) (pos i32_max)

unfoldable pub saturating_sub : ℤ → ℤ → ℤ
saturating_sub a b = clamp (a -ℤ b) (negsuc i32_max) (pos i32_max)

-- The cast `as u8`: the low eight bits.
unfoldable pub as_u8 : ℤ → ℕ
as_u8 x = (pos_part x + (256 - neg_part x % 256)) % 256
