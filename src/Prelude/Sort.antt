-- ===== src/Prelude/Sort.antt =====
-- Rust's stable `sort_by_key` over an integer key, as insertion from the right, and the ordered set
-- of texts `BTreeSet<String>` as a strictly sorted list.
use Prim.Native.Nat.{Ordering}
use Prim.Native.String.{String, compare}
use Prim.Native.String.compare as cmp
use mathlib.Core.Logic.{inl, inr}
use mathlib.Core.Path.{◌≡◌, refl}
use mathlib.Core.List.{List, [], ◌∷◌, Perm}
use mathlib.Core.List.Perm
use native.Mathlib.Omega.{arith}
use sync_server.Prelude.Tests.{if◌then◌else◌, Bool-cases}
use sync_server.Prelude.Lists.{All, is_empty}
use mathlib.Core.Bool.{false}
use sync_server.Prelude.Int.{ℤ, ◌≤ℤ◌, leb_ℤ}

module _ {ℓ} {A : Type ℓ} (key : A → ℤ) where
  insert_by_key : A → List A → List A
  insert_by_key x [] = x ∷ []
  insert_by_key x (y ∷ ys) = if leb_ℤ (key x) (key y) then x ∷ y ∷ ys else y ∷ insert_by_key x ys

  unfoldable pub sort_by_key : List A → List A
  unfolding insert_by_key
  sort_by_key [] = []
  sort_by_key (x ∷ xs) = insert_by_key x (sort_by_key xs)

  is_empty-insert_by_key : (x : A) (ys : List A) → is_empty (insert_by_key x ys) ≡ false
  unfolding insert_by_key
  is_empty-insert_by_key x [] = refl
  is_empty-insert_by_key x (y ∷ ys) = ground arith

  pub is_empty-sort_by_key : (xs : List A) → is_empty (sort_by_key xs) ≡ is_empty xs
  unfolding sort_by_key
  is_empty-sort_by_key [] = refl
  is_empty-sort_by_key (x ∷ xs) = is_empty-insert_by_key x (sort_by_key xs)

  -- Each key is at most the next one.
  abbrev pub IsSorted : List A → Type 0
  IsSorted [] = Unit
  IsSorted (x ∷ []) = Unit
  IsSorted (x ∷ y ∷ ys) = (key x ≤ℤ key y) × IsSorted (y ∷ ys)

  insert_by_key-IsSorted : (x : A) (ys : List A) → IsSorted ys → IsSorted (insert_by_key x ys)
  unfolding insert_by_key
  insert_by_key-IsSorted x [] s = tt
  insert_by_key-IsSorted x (y ∷ []) s = ground arith
  insert_by_key-IsSorted x (y ∷ z ∷ zs) s = ground (arith, insert_by_key-IsSorted x (z ∷ zs) s.1)

  pub sort_by_key-IsSorted : (xs : List A) → IsSorted (sort_by_key xs)
  unfolding sort_by_key
  sort_by_key-IsSorted [] = tt
  sort_by_key-IsSorted (x ∷ xs) = insert_by_key-IsSorted x _ (sort_by_key-IsSorted xs)

  -- A sorted list is left alone.
  pub sort_by_key_of_IsSorted : (xs : List A) → IsSorted xs → sort_by_key xs ≡ xs
  unfolding sort_by_key
  sort_by_key_of_IsSorted [] s = refl
  sort_by_key_of_IsSorted (x ∷ []) s = refl
  sort_by_key_of_IsSorted (x ∷ y ∷ ys) s = rw (sort_by_key_of_IsSorted (y ∷ ys) s.1) (ground arith)

  insert_by_key-perm : (x : A) (ys : List A) → Perm (insert_by_key x ys) (x ∷ ys)
  unfolding insert_by_key
  insert_by_key-perm x [] = Perm.refl (x ∷ [])
  insert_by_key-perm x (y ∷ ys) = elim (Bool-cases (leb_ℤ (key x) (key y))) [
    | inl first ↦ rw first (Perm.refl (x ∷ y ∷ ys))
    | inr later ↦ rw later (Perm.trans (Perm.cons y (insert_by_key-perm x ys)) (Perm.swap x y ys))
  ]

  -- Sorting neither drops nor adds an item.
  pub sort_by_key-perm : (xs : List A) → Perm (sort_by_key xs) xs
  unfolding sort_by_key
  sort_by_key-perm [] = Perm.refl []
  sort_by_key-perm (x ∷ xs) =
      Perm.trans (insert_by_key-perm x (sort_by_key xs)) (Perm.cons x (sort_by_key-perm xs))

flip : Ordering → Ordering
flip Ordering.lt = Ordering.gt
flip Ordering.eq = Ordering.eq
flip Ordering.gt = Ordering.lt

compare-flip : (s t : String) → compare t s ≡ flip (compare s t)
unfolding flip
compare-flip String.[] String.[] = refl
compare-flip String.[] (String.◌∷◌ d t) = rw (cmp.nil-cons, cmp.cons-nil) refl
compare-flip (String.◌∷◌ c s) String.[] = rw (cmp.nil-cons, cmp.cons-nil) refl
compare-flip (String.◌∷◌ c s) (String.◌∷◌ d t) =
    rw (cmp.cons-cons c d s t, cmp.cons-cons d c t s) (ground (arith, compare-flip s t))

-- `BTreeSet::insert`; a value that is there stays.
insert_text : String → List String → List String
insert_text x [] = x ∷ []
insert_text x (y ∷ ys) = elim (compare x y) [
  | Ordering.lt ↦ x ∷ y ∷ ys
  | Ordering.eq ↦ y ∷ ys
  | Ordering.gt ↦ y ∷ insert_text x ys
]

-- `collect::<BTreeSet<_>>().into_iter().collect()`
unfoldable pub sorted_set : List String → List String
unfolding insert_text
sorted_set [] = []
sorted_set (x ∷ xs) = insert_text x (sorted_set xs)

abbrev pub IsStrictlySorted : List String → Type 0
IsStrictlySorted [] = Unit
IsStrictlySorted (x ∷ []) = Unit
IsStrictlySorted (x ∷ y ∷ ys) = (compare x y ≡ Ordering.lt) × IsStrictlySorted (y ∷ ys)

pub sorted_set_of_sorted : (xs : List String) → IsStrictlySorted xs → sorted_set xs ≡ xs
unfolding sorted_set
sorted_set_of_sorted [] s = refl
sorted_set_of_sorted (x ∷ []) s = refl
sorted_set_of_sorted (x ∷ y ∷ ys) s = rw (sorted_set_of_sorted (y ∷ ys) s.1) (rw (s.0, insert_text))

insert_text-IsStrictlySorted :
    (x : String) (ys : List String) → IsStrictlySorted ys → IsStrictlySorted (insert_text x ys)
unfolding insert_text flip
insert_text-IsStrictlySorted x [] s = tt
insert_text-IsStrictlySorted x (y ∷ []) s = ground (arith, compare-flip x y)
insert_text-IsStrictlySorted x (y ∷ z ∷ zs) s =
    ground (arith, compare-flip x y, insert_text-IsStrictlySorted x (z ∷ zs) s.1)

pub sorted_set-IsStrictlySorted : (xs : List String) → IsStrictlySorted (sorted_set xs)
unfolding sorted_set
sorted_set-IsStrictlySorted [] = tt
sorted_set-IsStrictlySorted (x ∷ xs) =
    insert_text-IsStrictlySorted x (sorted_set xs) (sorted_set-IsStrictlySorted xs)

-- What holds of every text of a list holds of every text of its set.
module _ {ℓ} (P : String → Type ℓ) where
  insert_text-All : (x : String) (ys : List String) → P x → All P ys → All P (insert_text x ys)
  unfolding insert_text
  insert_text-All x [] p h = (p, tt)
  insert_text-All x (y ∷ ys) p h =
      elim (compare x y)
        as (λ o. All P (elim o [
          | Ordering.lt ↦ x ∷ y ∷ ys
          | Ordering.eq ↦ y ∷ ys
          | Ordering.gt ↦ y ∷ insert_text x ys
        ])) [
          | Ordering.lt ↦ (p, h)
          | Ordering.eq ↦ h
          | Ordering.gt ↦ (h.0, insert_text-All x ys p h.1)
        ]

  pub sorted_set-All : (xs : List String) → All P xs → All P (sorted_set xs)
  unfolding sorted_set
  sorted_set-All [] h = tt
  sorted_set-All (x ∷ xs) h = insert_text-All x (sorted_set xs) h.0 (sorted_set-All xs h.1)
