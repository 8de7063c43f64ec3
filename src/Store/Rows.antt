-- ===== src/Store/Rows.antt =====
-- Rows of a table under SQL's UPDATE and DELETE.
use mathlib.Core.Option
use sync_server.Prelude.{
  ℕ, ◌≡◌, refl, subst, inl, inr, Bool, true, false, Option, some, List, [], ◌∷◌, ◌==◌, find?,
  filter, arith, if◌then◌else◌, not, map, All, Bool-cases,
}
use sync_server.Prelude.Sets.{contains, IsNodup}

module _ {ℓ} {A : Type ℓ} where
  abbrev choose : (A → Bool) → (A → A) → A → A
  choose p f r = if p r then f r else r

  -- UPDATE … SET f WHERE p
  unfoldable pub update_where : (A → Bool) → (A → A) → List A → List A
  update_where p f = map (choose p f)

  -- DELETE … WHERE p, which reports how many rows it removed.
  unfoldable pub delete_where : (A → Bool) → List A → List A
  delete_where p = filter (λ r. not (p r))

-- Rows found by a key.
module _ {ℓ} {A : Type ℓ} (key : A → ℕ) where
  abbrev pub row_of : ℕ → List A → Option A
  row_of k = find? (λ r. key r == k)

  abbrev pub update_row : ℕ → (A → A) → List A → List A
  update_row k f = update_where (λ r. key r == k) f

  -- An update that keeps the key changes the row under its key and no other row.
  pub row_of-update_row :
      (k j : ℕ) (f : A → A) (rows : List A)
      → ((r : A) → key (f r) ≡ key r)
      → row_of j (update_row k f rows)
        ≡ (if k == j then Option.map f (row_of j rows) else row_of j rows)
  unfolding update_where
  row_of-update_row k j f [] keep = ground arith
  row_of-update_row k j f (r ∷ rows) keep =
      ground (arith, keep r, row_of-update_row k j f rows keep)

-- An update that a search does not notice: it finds the same row, updated if the update is meant
-- for it.
pub find?-update_where {ℓ} :
    {A : Type ℓ} (p q : A → Bool) (f : A → A) (rows : List A)
    → ((r : A) → p (f r) ≡ p r)
    → find? p (update_where q f rows) ≡ Option.map (λ r. if q r then f r else r) (find? p rows)
unfolding update_where
find?-update_where p q f [] keep = refl
find?-update_where p q f (r ∷ rows) keep =
    ground (arith, keep r, find?-update_where p q f rows keep)

-- What a search finds satisfies its test.
pub find?_found {ℓ} :
    {A : Type ℓ} (p : A → Bool) (rows : List A) (r : A) → find? p rows ≡ some r → p r ≡ true
find?_found p [] r h = cc
find?_found p (x ∷ rows) r h = ground (arith, find?_found p rows r)

-- Rows with unique keys.
module _ {ℓ} {A : Type ℓ} (key : A → ℕ) where
  found_later :
      (x : A) (all rows : List A)
      → contains (key x) (map key rows) ≡ false
      → All (λ r. row_of key (key r) all ≡ some r) rows
      → All (λ r. row_of key (key r) (x ∷ all) ≡ some r) rows
  found_later x all [] new h = tt
  found_later x all (r ∷ rows) new h = (ground arith, found_later x all rows (ground arith) h.1)

  -- Each row is found under its own key.
  pub row_of_self :
      (rows : List A) → IsNodup (map key rows) → All (λ r. row_of key (key r) rows ≡ some r) rows
  row_of_self [] once = tt
  row_of_self (r ∷ rows) once =
      (ground arith, found_later r rows rows once.0 (row_of_self rows once.1))

  contains_later :
      (x : A) (all rows : List A)
      → All (λ r. contains (key r) (map key all) ≡ true) rows
      → All (λ r. contains (key r) (map key (x ∷ all)) ≡ true) rows
  contains_later x all [] h = tt
  contains_later x all (r ∷ rows) h = (ground (arith, h.0), contains_later x all rows h.1)

  -- Each row's key is among the keys.
  pub contains_self : (rows : List A) → All (λ r. contains (key r) (map key rows) ≡ true) rows
  contains_self [] = tt
  contains_self (r ∷ rows) = (ground arith, contains_later r rows rows (contains_self rows))

  not_kept :
      (k : ℕ) (p : A → Bool) (rows : List A)
      → contains k (map key rows) ≡ false
      → contains k (map key (filter p rows)) ≡ false
  not_kept k p [] h = refl
  not_kept k p (r ∷ rows) h = ground (arith, not_kept k p rows)

  passes_later :
      (p : A → Bool) (x : A) (all rows : List A)
      → contains (key x) (map key rows) ≡ false
      → All (λ r. contains (key r) (map key (filter p all)) ≡ p r) rows
      → All (λ r. contains (key r) (map key (filter p (x ∷ all))) ≡ p r) rows
  passes_later p x all [] new h = tt
  passes_later p x all (r ∷ rows) new h =
      (ground arith, passes_later p x all rows (ground arith) h.1)

  -- A key is among those of the rows that pass a test exactly if its row passes.
  pub contains-keys_of_filter :
      (p : A → Bool) (rows : List A)
      → IsNodup (map key rows)
      → All (λ r. contains (key r) (map key (filter p rows)) ≡ p r) rows
  contains-keys_of_filter p [] once = tt
  contains-keys_of_filter p (r ∷ rows) once = (
    ground (arith, not_kept (key r) p rows once.0),
    passes_later p r rows rows once.0 (contains-keys_of_filter p rows once.1),
  )

  pub keys_of_filter-IsNodup :
      (p : A → Bool) (rows : List A) → IsNodup (map key rows) → IsNodup (map key (filter p rows))
  keys_of_filter-IsNodup p [] once = tt
  keys_of_filter-IsNodup p (r ∷ rows) once =
      ground (arith, not_kept (key r) p rows once.0, keys_of_filter-IsNodup p rows once.1)

-- Filtering keeps what holds of all rows.
pub All-filter {ℓ κ} :
    {A : Type ℓ} (P : A → Type κ) (p : A → Bool) (xs : List A) → All P xs → All P (filter p xs)
All-filter P p [] h = tt
All-filter P p (x ∷ xs) h = elim (Bool-cases (p x)) [
  | inl kept ↦ rw kept (h.0, All-filter P p xs h.1)
  | inr lost ↦ rw lost (All-filter P p xs h.1)
]

-- What the rows that pass a test have is known of all that are kept.
pub All-filter_passing {ℓ κ μ} :
    {A : Type ℓ} (P : A → Type κ) (Q : A → Type μ) (p : A → Bool) (xs : List A)
    → ((x : A) → p x ≡ true → P x → Q x)
    → All P xs
    → All Q (filter p xs)
All-filter_passing P Q p [] pass h = tt
All-filter_passing P Q p (x ∷ xs) pass (hx, h) = elim (Bool-cases (p x)) [
  | inl kept ↦ rw kept (pass x kept hx, All-filter_passing P Q p xs pass h)
  | inr lost ↦ rw lost (All-filter_passing P Q p xs pass h)
]

pub map_cong {ℓ κ} :
    {A : Type ℓ} {B : Type κ} (f g : A → B) (xs : List A)
    → All (λ x. f x ≡ g x) xs
    → map f xs ≡ map g xs
map_cong f g [] h = refl
map_cong f g (x ∷ xs) (same, rest) = λ i. same i ∷ map_cong f g xs rest i

-- What holds of all rows holds of the row that is found, and of the rows after an update that keeps it.
pub All_of_found {ℓ κ} :
    {A : Type ℓ} (P : A → Type κ) (p : A → Bool) (rows : List A) (r : A)
    → All P rows
    → find? p rows ≡ some r
    → P r
All_of_found P p [] r h found = absurd (ground arith)
All_of_found P p (x ∷ xs) r (hx, h) found = elim (Bool-cases (p x)) [
  | inl here ↦ subst P (ground arith) hx
  | inr later ↦ All_of_found P p xs r h (ground arith)
]

pub All-update_where {ℓ κ} :
    {A : Type ℓ} (P : A → Type κ) (p : A → Bool) (f : A → A) (rows : List A)
    → ((r : A) → P r → P (f r))
    → All P rows
    → All P (update_where p f rows)
unfolding update_where
All-update_where P p f [] keep h = tt
All-update_where P p f (x ∷ xs) keep (hx, h) = elim (Bool-cases (p x)) [
  | inl here ↦ rw here (keep x hx, All-update_where P p f xs keep h)
  | inr other ↦ rw other (hx, All-update_where P p f xs keep h)
]

pub All-map {ℓ κ μ} :
    {A : Type ℓ} {B : Type κ} (P : A → Type μ) (Q : B → Type μ) (f : A → B) (rows : List A)
    → ((r : A) → P r → Q (f r))
    → All P rows
    → All Q (map f rows)
All-map P Q f [] keep h = tt
All-map P Q f (x ∷ xs) keep (hx, h) = (keep x hx, All-map P Q f xs keep h)
