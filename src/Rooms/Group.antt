-- ===== src/Rooms/Group.antt =====
-- The members of a room as a set of users: lists of users up to order and repetition.
use mathlib.Core.Quot
use mathlib.Core.Quot.{Quot, Quot-set}
use sync_server.Prelude.{
  ℕ, ◌≡◌, refl, sym, ap, ◌∙◌, Bool, true, false, not, ◌&&◌, ◌||◌, List, [], ◌∷◌, ◌++◌, arith, ◌==◌,
  filter, is_empty,
}
use sync_server.Prelude.Sets.{contains, contains-filter}
use sync_server.Rooms.Rows.{contains-append}

abbrev SameMembers : List ℕ → List ℕ → Type 0
SameMembers xs ys = (a : ℕ) → contains a xs ≡ contains a ys

abbrev pub Group : Type 0
Group = Quot SameMembers

abbrev pub group : List ℕ → Group
group = Quot.mk

pub has : ℕ → Group → Bool
has a = Quot.lift (hlevel) (contains a) (λ xs ys same. same a)

is_empty-SameMembers : (xs ys : List ℕ) → SameMembers xs ys → is_empty xs ≡ is_empty ys
is_empty-SameMembers [] [] same = refl
is_empty-SameMembers [] (y ∷ ys) same = ground (arith, same y)
is_empty-SameMembers (x ∷ xs) [] same = ground (arith, same x)
is_empty-SameMembers (x ∷ xs) (y ∷ ys) same = refl

pub is_deserted : Group → Bool
is_deserted = Quot.lift (hlevel) is_empty is_empty-SameMembers

append-SameMembers : (zs xs ys : List ℕ) → SameMembers xs ys → SameMembers (zs ++ xs) (zs ++ ys)
append-SameMembers zs xs ys same a =
    ground (arith, contains-append a zs xs, contains-append a zs ys, same a)

pub joined : List ℕ → Group → Group
joined zs =
    Quot.lift Quot-set (λ xs. group (zs ++ xs))
      (λ xs ys same. Quot.sound (append-SameMembers zs xs ys same))

filter-SameMembers :
    (u : ℕ) (xs ys : List ℕ)
    → SameMembers xs ys
    → SameMembers (filter (λ a. not (a == u)) xs) (filter (λ a. not (a == u)) ys)
filter-SameMembers u xs ys same a = ground (
  arith,
  contains-filter a (λ a. not (a == u)) xs,
  contains-filter a (λ a. not (a == u)) ys,
  same a,
)

pub without : ℕ → Group → Group
without u =
    Quot.lift Quot-set (λ xs. group (filter (λ a. not (a == u)) xs))
      (λ xs ys same. Quot.sound (filter-SameMembers u xs ys same))

-- Groups with the same members are equal.
pub ext : (g h : Group) → ((a : ℕ) → has a g ≡ has a h) → g ≡ h
unfolding has
ext = Quot.ind (λ _. hlevel Quot-set) λ xs. Quot.ind (λ _. hlevel Quot-set) λ ys. Quot.sound

pub has-group : (a : ℕ) (xs : List ℕ) → has a (group xs) ≡ contains a xs
unfolding has
has-group a xs = refl

pub has-joined : (a : ℕ) (zs : List ℕ) (g : Group) → has a (joined zs g) ≡ contains a zs || has a g
unfolding has joined
has-joined a zs = Quot.ind (λ _. hlevel) (contains-append a zs)

pub has-without : (a u : ℕ) (g : Group) → has a (without u g) ≡ not (a == u) && has a g
unfolding has without
has-without a u = Quot.ind (λ _. hlevel) (contains-filter a (λ a. not (a == u)))

pub is_deserted-group : (xs : List ℕ) → is_deserted (group xs) ≡ is_empty xs
unfolding is_deserted
is_deserted-group xs = refl

pub without-group :
    (u : ℕ) (xs : List ℕ) → without u (group xs) ≡ group (filter (λ a. not (a == u)) xs)
unfolding without
without-group u xs = refl

pub group_of_is_empty : (xs : List ℕ) → is_empty xs ≡ true → group xs ≡ group []
group_of_is_empty [] empty = refl
group_of_is_empty (x ∷ xs) empty = cc

-- A set with a member is not empty, and one without is.
pub is_deserted-has : (a : ℕ) (g : Group) → has a g ≡ true → is_deserted g ≡ false
unfolding has is_deserted
is_deserted-has a = Quot.ind (λ _. hlevel) inhabited
  where
    inhabited : (xs : List ℕ) → contains a xs ≡ true → is_empty xs ≡ false
    inhabited [] h = cc
    inhabited (x ∷ xs) h = refl

pub is_deserted_of_none : (g : Group) → ((a : ℕ) → has a g ≡ false) → is_deserted g ≡ true
is_deserted_of_none g none =
    ap is_deserted (ext g (group []) (λ a. none a ∙ sym (has-group a []))) ∙ is_deserted-group []
