-- ===== src/Prelude/Text.antt =====
-- `str::trim` and `str::to_lowercase` over native strings. Trimming knows every code point with the
-- Unicode property White_Space; lowercasing changes the ASCII letters and the Kelvin sign alone.
use Prim.Native.Nat.{ℕ, ◌+◌, ◌<◌, compare, Ordering}
use Prim.Native.Char.{Char, char, code, IsScalar}
use Prim.Native.String.{String, [], ◌∷◌}
use mathlib.Core.Bool.{Bool, true, false, ◌&&◌, ◌||◌}
use Prim.Native.String.compare as cmp
use mathlib.Core.Path.{◌≡◌, refl, sym, ap, ap₂, ◌∙◌, ◌≡⟨◌⟩◌, ◌∎}
use mathlib.Core.Logic.{inl, inr, dite}
use native.Mathlib.Decide.{dec_lt}
use native.Mathlib.Omega.{arith}
use text.Mathlib.TextEquality.{Char-path}
use text.Mathlib.Text.{◌==◌ as str_eq}
use sync_server.Prelude.Tests.{leb, ◌==◌, if◌then◌else◌, Bool-cases}

unfoldable pub is_whitespace : Char → Bool
is_whitespace ch =
    let c = code ch in
    leb 9 c && leb c 13
    || c == 32
    || c == 0x85
    || c == 0xa0
    || c == 0x1680
    || leb 0x2000 c && leb c 0x200a
    || c == 0x2028
    || c == 0x2029
    || c == 0x202f
    || c == 0x205f
    || c == 0x3000

unfoldable pub trim_start : String → String
trim_start [] = []
trim_start (c ∷ s) = let rest = trim_start s in if is_whitespace c then rest else c ∷ s

unfoldable pub trim_end : String → String
trim_end [] = []
trim_end (c ∷ s) =
    let rest = trim_end s in if is_whitespace c && str_eq rest "" then [] else c ∷ rest

unfoldable pub trim : String → String
unfolding trim_start trim_end is_whitespace
trim s = trim_end (trim_start s)

lt_scalar : (n : ℕ) → n < 55296 → compare n 55296 ≡ Ordering.lt
lt_scalar n h = ground arith

pub small-IsScalar : (n : ℕ) → n < 55296 → IsScalar n
small-IsScalar n h = rw (lt_scalar n h) tt

unfoldable pub lower_wide : Char → Char
lower_wide c = if code c == 0x212a then char 107 (small-IsScalar 107 (omega arith)) else c

-- `A` to `Z` become `a` to `z`, and so does the Kelvin sign, the one other character whose lower case
-- is an ASCII letter alone.
unfoldable pub lower_char : Char → Char
unfolding dec_lt lower_wide
lower_char c =
    dite (dec_lt (code c) 91)
      (λ h.
        if leb 65 (code c)
        then char (code c + 32) (small-IsScalar (code c + 32) (omega arith))
        else c)
      (λ _. lower_wide c)

unfoldable pub to_lowercase : String → String
unfolding lower_char
to_lowercase [] = []
to_lowercase (c ∷ s) = lower_char c ∷ to_lowercase s

-- `value.trim().to_lowercase()`
unfoldable pub clean : String → String
unfolding trim to_lowercase
clean s = to_lowercase (trim s)

-- Lowercasing twice is lowercasing once, and keeps white space where it is.
lower_code : ℕ → ℕ
lower_code n = if leb 65 n && leb n 90 then n + 32 else if n == 0x212a then 107 else n

code-lower_wide : (c : Char) → code (lower_wide c) ≡ (if code c == 0x212a then 107 else code c)
unfolding lower_wide
code-lower_wide c = elim (Bool-cases (code c == 0x212a)) [
  | inl kelvin ↦ rw kelvin refl
  | inr other ↦ rw other refl
]

code-lower_char : (c : Char) → code (lower_char c) ≡ lower_code (code c)
unfolding lower_char lower_code
code-lower_char c = ground (arith, code-lower_wide c)

lower_char_idem : (c : Char) → lower_char (lower_char c) ≡ lower_char c
unfolding lower_code
lower_char_idem c =
    Char-path _ _ (ground (arith, code-lower_char (lower_char c), code-lower_char c))

is_whitespace-lower_char : (c : Char) → is_whitespace (lower_char c) ≡ is_whitespace c
unfolding is_whitespace lower_code
is_whitespace-lower_char c = rw (code-lower_char c) (ground arith)

-- Neither trimming nor lowercasing does anything to a cleaned text.
cons_ne : (c : Char) (s : String) → str_eq (c ∷ s) "" ≡ false
cons_ne c s = rw (cmp.cons-nil c s)

to_lowercase-eq-nil : (s : String) → str_eq (to_lowercase s) "" ≡ str_eq s ""
unfolding to_lowercase
to_lowercase-eq-nil [] = refl
to_lowercase-eq-nil (c ∷ s) = cons_ne (lower_char c) (to_lowercase s) ∙ sym (cons_ne c s)

to_lowercase-trim_start : (s : String) → trim_start (to_lowercase s) ≡ to_lowercase (trim_start s)
unfolding trim_start to_lowercase
to_lowercase-trim_start [] = refl
to_lowercase-trim_start (c ∷ s) = elim (Bool-cases (is_whitespace c)) [
  | inl space ↦ rw (is_whitespace-lower_char c, space) (to_lowercase-trim_start s)
  | inr other ↦ rw (is_whitespace-lower_char c, other)
]

lower_branch :
    (b : Bool) (c : Char) (r : String)
    → (if b then "" else lower_char c ∷ to_lowercase r) ≡ to_lowercase (if b then "" else c ∷ r)
unfolding to_lowercase
lower_branch true c r = refl
lower_branch false c r = refl

to_lowercase-trim_end : (s : String) → trim_end (to_lowercase s) ≡ to_lowercase (trim_end s)
unfolding trim_end to_lowercase
to_lowercase-trim_end [] = refl
to_lowercase-trim_end (c ∷ s) =
    rw (to_lowercase-trim_end s, is_whitespace-lower_char c, to_lowercase-eq-nil (trim_end s))
      (lower_branch (is_whitespace c && str_eq (trim_end s) "") c (trim_end s))

to_lowercase_idem : (s : String) → to_lowercase (to_lowercase s) ≡ to_lowercase s
unfolding to_lowercase
to_lowercase_idem [] = refl
to_lowercase_idem (c ∷ s) = ap₂ (◌∷◌) (lower_char_idem c) (to_lowercase_idem s)

trim_end_step :
    (c : Char) (r : String) (b : Bool)
    → trim_end r ≡ r
    → is_whitespace c && str_eq r "" ≡ b
    → trim_end (if b then [] else c ∷ r) ≡ (if b then [] else c ∷ r)
unfolding trim_end
trim_end_step c r true idem e = refl
trim_end_step c r false idem e = rw (idem, e)

trim_end_idem : (s : String) → trim_end (trim_end s) ≡ trim_end s
unfolding trim_end
trim_end_idem [] = refl
trim_end_idem (c ∷ s) = trim_end_step c (trim_end s) _ (trim_end_idem s) refl

-- Trimming the end leaves nothing to trim at a start that was trimmed.
trim_start-trim_end : (s : String) → trim_start (trim_end (trim_start s)) ≡ trim_end (trim_start s)
unfolding trim_start trim_end
trim_start-trim_end [] = refl
trim_start-trim_end (c ∷ s) = elim (Bool-cases (is_whitespace c)) [
  | inl space ↦ rw space (trim_start-trim_end s)
  | inr other ↦ rw (other, other, other)
]

-- Cleaning a text twice is cleaning it once.
pub clean-clean : (s : String) → clean (clean s) ≡ clean s
unfolding clean trim
clean-clean s =
    to_lowercase (trim_end (trim_start (to_lowercase (trim s))))
    ≡⟨ ap (λ t. to_lowercase (trim_end t)) (to_lowercase-trim_start (trim s)) ⟩
      to_lowercase (trim_end (to_lowercase (trim_start (trim s))))
    ≡⟨ ap (λ t. to_lowercase (trim_end (to_lowercase t))) (trim_start-trim_end s) ⟩
      to_lowercase (trim_end (to_lowercase (trim s)))
    ≡⟨ ap to_lowercase (to_lowercase-trim_end (trim s)) ⟩
      to_lowercase (to_lowercase (trim_end (trim s)))
    ≡⟨ to_lowercase_idem (trim_end (trim s)) ⟩ to_lowercase (trim_end (trim s))
    ≡⟨ ap to_lowercase (trim_end_idem (trim_start s)) ⟩ to_lowercase (trim s) ∎
