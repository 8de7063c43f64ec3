-- ===== src/Prelude/Sets.antt =====
-- Sets of identifiers: membership in a list, and the ordered set `BTreeSet<Uuid>` as a strictly
-- increasing list.
use Prim.Native.Nat.{ℕ, ◌≤◌, ◌<◌}
use mathlib.Core.Path.{◌≡◌, refl}
use mathlib.Core.Bool.{Bool, true, false, not, ◌&&◌, ◌||◌}
use mathlib.Core.List.{List, [], ◌∷◌}
use native.Mathlib.Omega.{arith}
use sync_server.Prelude.Tests.{ltb, ◌==◌, if◌then◌else◌}
use sync_server.Prelude.Lists.{filter}

abbrev pub contains : ℕ → List ℕ → Bool
contains z [] = false
contains z (x ∷ xs) = z == x || contains z xs

-- No item occurs twice.
abbrev pub IsNodup : List ℕ → Type 0
IsNodup [] = Unit
IsNodup (x ∷ xs) = (contains x xs ≡ false) × IsNodup xs

-- `BTreeSet::insert`
insert_id : ℕ → List ℕ → List ℕ
insert_id x [] = x ∷ []
insert_id x (y ∷ ys) = if ltb x y then x ∷ y ∷ ys else if x == y then y ∷ ys else y ∷ insert_id x ys

-- `collect::<BTreeSet<_>>().into_iter().collect()`
unfoldable pub sorted_ids : List ℕ → List ℕ
unfolding insert_id
sorted_ids [] = []
sorted_ids (x ∷ xs) = insert_id x (sorted_ids xs)

contains-insert_id : (z x : ℕ) (ys : List ℕ) → contains z (insert_id x ys) ≡ z == x || contains z ys
unfolding insert_id
contains-insert_id z x [] = refl
contains-insert_id z x (y ∷ ys) = ground (arith, contains-insert_id z x ys)

-- The set has the items of the list.
pub contains-sorted_ids : (z : ℕ) (xs : List ℕ) → contains z (sorted_ids xs) ≡ contains z xs
unfolding sorted_ids
contains-sorted_ids z [] = refl
contains-sorted_ids z (x ∷ xs) =
    ground (arith, contains-insert_id z x (sorted_ids xs), contains-sorted_ids z xs)

-- Each item is above `m` and above the items before it.
abbrev IsIncreasing : ℕ → List ℕ → Type 0
IsIncreasing m [] = Unit
IsIncreasing m (x ∷ xs) = (m < x) × IsIncreasing x xs

insert_id-IsIncreasing :
    (m x : ℕ) (ys : List ℕ) → m < x → IsIncreasing m ys → IsIncreasing m (insert_id x ys)
unfolding insert_id
insert_id-IsIncreasing m x [] above s = (above, tt)
insert_id-IsIncreasing m x (y ∷ ys) above s =
    ground (arith, λ (later : y < x). insert_id-IsIncreasing y x ys later s.1)

contains-below : (m z : ℕ) (xs : List ℕ) → IsIncreasing m xs → z ≤ m → contains z xs ≡ false
contains-below m z [] s h = refl
contains-below m z (x ∷ xs) s h = let tail = contains-below x z xs s.1 (omega arith) in ground arith

IsNodup-of_IsIncreasing : (m : ℕ) (xs : List ℕ) → IsIncreasing m xs → IsNodup xs
IsNodup-of_IsIncreasing m [] s = tt
IsNodup-of_IsIncreasing m (x ∷ xs) s =
    (contains-below x x xs s.1 (omega arith), IsNodup-of_IsIncreasing x xs s.1)

abbrev IsAscending : List ℕ → Type 0
IsAscending [] = Unit
IsAscending (x ∷ xs) = IsIncreasing x xs

insert_id-IsAscending : (x : ℕ) (ys : List ℕ) → IsAscending ys → IsAscending (insert_id x ys)
unfolding insert_id
insert_id-IsAscending x [] s = tt
insert_id-IsAscending x (y ∷ ys) s =
    ground (arith, λ (later : y < x). insert_id-IsIncreasing y x ys later s)

sorted_ids-IsAscending : (xs : List ℕ) → IsAscending (sorted_ids xs)
unfolding sorted_ids
sorted_ids-IsAscending [] = tt
sorted_ids-IsAscending (x ∷ xs) =
    insert_id-IsAscending x (sorted_ids xs) (sorted_ids-IsAscending xs)

IsNodup-of_IsAscending : (xs : List ℕ) → IsAscending xs → IsNodup xs
IsNodup-of_IsAscending [] s = tt
IsNodup-of_IsAscending (x ∷ xs) s =
    (contains-below x x xs s (omega arith), IsNodup-of_IsIncreasing x xs s)

-- The set has each of them once.
pub sorted_ids-IsNodup : (xs : List ℕ) → IsNodup (sorted_ids xs)
sorted_ids-IsNodup xs = IsNodup-of_IsAscending (sorted_ids xs) (sorted_ids-IsAscending xs)

-- Leaving items out keeps the others, and repeats none.
pub contains-filter :
    (z : ℕ) (p : ℕ → Bool) (xs : List ℕ) → contains z (filter p xs) ≡ p z && contains z xs
contains-filter z p [] = ground arith
contains-filter z p (x ∷ xs) = ground (arith, contains-filter z p xs)

pub filter-IsNodup : (p : ℕ → Bool) (xs : List ℕ) → IsNodup xs → IsNodup (filter p xs)
filter-IsNodup p [] s = tt
filter-IsNodup p (x ∷ xs) s = ground (arith, contains-filter x p xs, filter-IsNodup p xs s.1)

-- Rust's `all`, and what it says of a set and of another test.
abbrev pub all : (ℕ → Bool) → List ℕ → Bool
all p [] = true
all p (x ∷ xs) = p x && all p xs

all-insert_id : (p : ℕ → Bool) (x : ℕ) (ys : List ℕ) → all p (insert_id x ys) ≡ p x && all p ys
unfolding insert_id
all-insert_id p x [] = refl
all-insert_id p x (y ∷ ys) = ground (arith, all-insert_id p x ys)

pub all-sorted_ids : (p : ℕ → Bool) (xs : List ℕ) → all p (sorted_ids xs) ≡ all p xs
unfolding sorted_ids
all-sorted_ids p [] = refl
all-sorted_ids p (x ∷ xs) = ground (arith, all-insert_id p x (sorted_ids xs), all-sorted_ids p xs)

pub all_mono :
    (p q : ℕ → Bool) (xs : List ℕ)
    → ((x : ℕ) → p x ≡ true → q x ≡ true)
    → all p xs ≡ true
    → all q xs ≡ true
all_mono p q [] keep h = refl
all_mono p q (x ∷ xs) keep h = ground (arith, keep x, all_mono p q xs keep)

-- What is left of a list by a test passes it as well.
pub all-filter :
    (p q : ℕ → Bool) (xs : List ℕ) → all p xs ≡ true → all (λ x. p x && q x) (filter q xs) ≡ true
all-filter p q [] h = refl
all-filter p q (x ∷ xs) h = ground (arith, all-filter p q xs)

-- `distinct` is `IsNodup` as a test.
abbrev pub distinct : List ℕ → Bool
distinct [] = true
distinct (x ∷ xs) = not (contains x xs) && distinct xs

pub distinct-of_IsNodup : (xs : List ℕ) → IsNodup xs → distinct xs ≡ true
distinct-of_IsNodup [] u = refl
distinct-of_IsNodup (x ∷ xs) u = ground (arith, distinct-of_IsNodup xs u.1)
