-- ===== src/Prelude/Order.antt =====
-- ORDER BY and Rust's stable `sort_by`: rows sorted by a comparison, as insertion from the right.
use Prim.Native.Nat.{ℕ}
use mathlib.Core.Path.{◌≡◌, refl, sym, ap, ◌∙◌}
use mathlib.Core.Logic.{inl, inr}
use mathlib.Core.Bool.{Bool, true, false, ◌||◌}
use mathlib.Core.List.{List, [], ◌∷◌, map}
use native.Mathlib.Omega.{arith}
use sync_server.Prelude.Tests.{◌==◌, if◌then◌else◌, Bool-cases}
use sync_server.Prelude.Lists.{All, filter, any}
use sync_server.Prelude.Sets.{contains, IsNodup}

-- `le a b` says that `a` may stand before `b`.
module _ {ℓ} {A : Type ℓ} (le : A → A → Bool) where
  insert_by : A → List A → List A
  insert_by x [] = x ∷ []
  insert_by x (y ∷ ys) = if le x y then x ∷ y ∷ ys else y ∷ insert_by x ys

  unfoldable pub sort_by : List A → List A
  unfolding insert_by
  sort_by [] = []
  sort_by (x ∷ xs) = insert_by x (sort_by xs)

  -- Every item may stand before all that follow it.
  abbrev pub IsOrdered : List A → Type ℓ
  IsOrdered [] = Unit
  IsOrdered (x ∷ xs) = All (λ y. le x y ≡ true) xs × IsOrdered xs

  All-insert_by {κ} :
      (P : A → Type κ) (x : A) (ys : List A) → P x → All P ys → All P (insert_by x ys)
  unfolding insert_by
  All-insert_by P x [] p h = (p, tt)
  All-insert_by P x (y ∷ ys) p h = elim (Bool-cases (le x y)) [
    | inl first ↦ rw first (p, h)
    | inr later ↦ rw later (h.0, All-insert_by P x ys p h.1)
  ]

  pub All-sort_by {κ} : (P : A → Type κ) (xs : List A) → All P xs → All P (sort_by xs)
  unfolding sort_by
  All-sort_by P [] h = tt
  All-sort_by P (x ∷ xs) h = All-insert_by P x (sort_by xs) h.0 (All-sort_by P xs h.1)

  any-insert_by : (p : A → Bool) (x : A) (ys : List A) → any p (insert_by x ys) ≡ any p (x ∷ ys)
  unfolding insert_by
  any-insert_by p x [] = refl
  any-insert_by p x (y ∷ ys) = ground (arith, any-insert_by p x ys)

  pub any-sort_by : (p : A → Bool) (xs : List A) → any p (sort_by xs) ≡ any p xs
  unfolding sort_by
  any-sort_by p [] = refl
  any-sort_by p (x ∷ xs) = ground (arith, any-insert_by p x (sort_by xs), any-sort_by p xs)

  -- Sorting keeps the keys of the rows.
  module _ (key : A → ℕ) where
    contains-insert_by :
        (z : ℕ) (x : A) (ys : List A)
        → contains z (map key (insert_by x ys)) ≡ z == key x || contains z (map key ys)
    unfolding insert_by
    contains-insert_by z x [] = refl
    contains-insert_by z x (y ∷ ys) = ground (arith, contains-insert_by z x ys)

    pub contains-sort_by :
        (z : ℕ) (xs : List A) → contains z (map key (sort_by xs)) ≡ contains z (map key xs)
    unfolding sort_by
    contains-sort_by z [] = refl
    contains-sort_by z (x ∷ xs) =
        ground (arith, contains-insert_by z x (sort_by xs), contains-sort_by z xs)

    insert_by-IsNodup :
        (x : A) (ys : List A)
        → contains (key x) (map key ys) ≡ false
        → IsNodup (map key ys)
        → IsNodup (map key (insert_by x ys))
    unfolding insert_by
    insert_by-IsNodup x [] new u = (refl, tt)
    insert_by-IsNodup x (y ∷ ys) new u =
        ground (arith, contains-insert_by (key y) x ys, insert_by-IsNodup x ys)

    pub sort_by-IsNodup : (xs : List A) → IsNodup (map key xs) → IsNodup (map key (sort_by xs))
    unfolding sort_by
    sort_by-IsNodup [] u = tt
    sort_by-IsNodup (x ∷ xs) u =
        insert_by-IsNodup x (sort_by xs) (contains-sort_by (key x) xs ∙ u.0)
          (sort_by-IsNodup xs u.1)

  -- Of a total and transitive comparison.
  module _ (total : (a b : A) → le a b ≡ false → le b a ≡ true)
      (trans : (a b c : A) → le a b ≡ true → le b c ≡ true → le a c ≡ true) where
    All-le :
        (x y : A) (zs : List A)
        → le x y ≡ true
        → All (λ z. le y z ≡ true) zs
        → All (λ z. le x z ≡ true) zs
    All-le x y [] h s = tt
    All-le x y (z ∷ zs) h s = (trans x y z h s.0, All-le x y zs h s.1)

    insert_by-IsOrdered : (x : A) (ys : List A) → IsOrdered ys → IsOrdered (insert_by x ys)
    unfolding insert_by
    insert_by-IsOrdered x [] s = (tt, tt)
    insert_by-IsOrdered x (y ∷ ys) s = elim (Bool-cases (le x y)) [
      | inl first ↦ rw first ((first, All-le x y ys first s.0), s)
      | inr later ↦ rw later (
        All-insert_by (λ z. le y z ≡ true) x ys (total x y later) s.0,
        insert_by-IsOrdered x ys s.1,
      )
    ]

    pub sort_by-IsOrdered : (xs : List A) → IsOrdered (sort_by xs)
    unfolding sort_by
    sort_by-IsOrdered [] = tt
    sort_by-IsOrdered (x ∷ xs) = insert_by-IsOrdered x (sort_by xs) (sort_by-IsOrdered xs)

    -- An item that may stand before all others is inserted in front.
    insert_by-front : (x : A) (ys : List A) → All (λ y. le x y ≡ true) ys → insert_by x ys ≡ x ∷ ys
    unfolding insert_by
    insert_by-front x [] h = refl
    insert_by-front x (y ∷ ys) h = rw (h.0)

    -- Sorting puts it in front, too.
    pub sort_by-front :
        (x : A) (xs : List A) → All (λ y. le x y ≡ true) xs → sort_by (x ∷ xs) ≡ x ∷ sort_by xs
    unfolding sort_by
    sort_by-front x xs h = insert_by-front x (sort_by xs) (All-sort_by (λ y. le x y ≡ true) xs h)

    All-filter {κ} : (P : A → Type κ) (p : A → Bool) (xs : List A) → All P xs → All P (filter p xs)
    All-filter P p [] h = tt
    All-filter P p (x ∷ xs) h = elim (Bool-cases (p x)) [
      | inl kept ↦ rw kept (h.0, All-filter P p xs h.1)
      | inr lost ↦ rw lost (All-filter P p xs h.1)
    ]

    filter-insert_by_lost :
        (p : A → Bool) (x : A) (ys : List A) → p x ≡ false → filter p (insert_by x ys) ≡ filter p ys
    unfolding insert_by
    filter-insert_by_lost p x [] lost = rw lost
    filter-insert_by_lost p x (y ∷ ys) lost = ground (arith, filter-insert_by_lost p x ys lost)

    filter-insert_by :
        (p : A → Bool) (x : A) (ys : List A)
        → p x ≡ true
        → IsOrdered ys
        → filter p (insert_by x ys) ≡ insert_by x (filter p ys)
    unfolding insert_by
    filter-insert_by p x [] kept s = rw kept
    filter-insert_by p x (y ∷ ys) kept s = elim (Bool-cases (le x y)) [
      | inl first ↦
          rw (first, kept)
            (sym (
              insert_by-front x (filter p (y ∷ ys))
                (All-filter _ p (y ∷ ys) (first, All-le x y ys first s.0))))
      | inr later ↦ ground (arith, filter-insert_by p x ys kept s.1)
    ]

    -- Leaving rows out before sorting or after it is the same.
    pub filter-sort_by :
        (p : A → Bool) (xs : List A) → filter p (sort_by xs) ≡ sort_by (filter p xs)
    unfolding sort_by
    filter-sort_by p [] = refl
    filter-sort_by p (x ∷ xs) = elim (Bool-cases (p x)) [
      | inl kept ↦ rw kept (
          filter-insert_by p x (sort_by xs) kept (sort_by-IsOrdered xs)
          ∙ ap (insert_by x) (filter-sort_by p xs))
      | inr lost ↦ rw lost (filter-insert_by_lost p x (sort_by xs) lost ∙ filter-sort_by p xs)
    ]
