-- ===== src/Paging.antt =====
-- Keyset paging, newest first, as `get_conversation` and `get_room_messages` write it:
-- ORDER BY created_at DESC, id DESC, and the filter of the rows before a cursor.
use sync_server.Prelude.{
  subst, ℕ, zero, suc, ◌≡◌, refl, sym, ap, ◌∙◌, Bool, true, false, ◌&&◌, ◌||◌, some, List, [], ◌∷◌,
  arith, ltb, leb, ◌==◌, All, filter, take, drop, last?, map,
}
use sync_server.Prelude.Sets.{contains, IsNodup}
use sync_server.Prelude.Order.{
  sort_by, IsOrdered, sort_by-IsOrdered, sort_by-IsNodup, sort_by-front, filter-sort_by,
  All-sort_by,
}

-- A row's place in the order.
module _ {ℓ} {A : Type ℓ} (created_at id : A → ℕ) where
  -- `order((created_at.desc(), id.desc()))`
  abbrev pub newest_first : A → A → Bool
  newest_first a b =
      ltb (created_at b) (created_at a) || created_at a == created_at b && leb (id b) (id a)

  -- `created_at.lt(cursor.created_at).or(created_at.eq(cursor.created_at).and(id.lt(cursor_id)))`
  abbrev pub is_before : A → A → Bool
  is_before cursor row =
      ltb (created_at row) (created_at cursor)
      || created_at row == created_at cursor && ltb (id row) (id cursor)

  newest_first-total : (a b : A) → newest_first a b ≡ false → newest_first b a ≡ true
  newest_first-total a b h = ground arith

  newest_first_trans :
      (a b c : A) → newest_first a b ≡ true → newest_first b c ≡ true → newest_first a c ≡ true
  newest_first_trans a b c h k = ground arith

  unfoldable pub newest : List A → List A
  newest rows = sort_by newest_first rows

  -- The rows of a page: those that pass the filter, in order, as many as the limit allows.
  unfoldable pub page : ℕ → List A → List A
  page limit rows = take limit (newest rows)

  abbrev IsStrict : List A → Type 0
  IsStrict [] = Unit
  IsStrict (x ∷ xs) = All (λ y. is_before x y ≡ true) xs × IsStrict xs

  All-is_before :
      (x : A) (xs : List A)
      → All (λ y. newest_first x y ≡ true) xs
      → contains (id x) (map id xs) ≡ false
      → All (λ y. is_before x y ≡ true) xs
  All-is_before x [] h new = tt
  All-is_before x (y ∷ ys) h new = (ground arith, All-is_before x ys h.1 (ground arith))

  IsStrict-of_IsOrdered :
      (xs : List A) → IsOrdered newest_first xs → IsNodup (map id xs) → IsStrict xs
  IsStrict-of_IsOrdered [] s u = tt
  IsStrict-of_IsOrdered (x ∷ xs) s u =
      (All-is_before x xs s.0 u.0, IsStrict-of_IsOrdered xs s.1 u.1)

  All-last {κ} :
      (P : A → Type κ) (n : ℕ) (xs : List A) {c : A} → All P xs → last? (take n xs) ≡ some c → P c
  All-last P zero xs h e = cc
  All-last P (suc n) [] h e = cc
  All-last P (suc zero) (x ∷ xs) h e = subst P (ground arith) h.0
  All-last P (suc (suc n)) (x ∷ []) h e = subst P (ground arith) h.0
  All-last P (suc (suc n)) (x ∷ y ∷ ys) h e = All-last P (suc n) (y ∷ ys) h.1 e

  keep-All : (p : A → Bool) (xs : List A) → All (λ y. p y ≡ true) xs → filter p xs ≡ xs
  keep-All p [] h = refl
  keep-All p (x ∷ xs) h = rw (h.0, keep-All p xs h.1)

  lose_head :
      (c x : A) (xs : List A)
      → is_before c x ≡ false
      → filter (is_before c) (x ∷ xs) ≡ filter (is_before c) xs
  lose_head c x xs h = rw h

  not_before_self : (x : A) → is_before x x ≡ false
  not_before_self x = ground arith

  not_before : (c x : A) → is_before x c ≡ true → is_before c x ≡ false
  not_before c x h = ground arith

  -- What stands before the last row of a page is what follows the page.
  rest_of_strict :
      (n : ℕ) (xs : List A) (c : A)
      → IsStrict xs
      → last? (take n xs) ≡ some c
      → filter (is_before c) xs ≡ drop n xs
  rest_of_strict zero xs c s e = cc
  rest_of_strict (suc n) [] c s e = refl
  rest_of_strict (suc zero) (x ∷ xs) c s e =
      subst (λ (c : A). filter (is_before c) (x ∷ xs) ≡ xs) (ground arith)
        (lose_head x x xs (not_before_self x) ∙ keep-All (is_before x) xs s.0)
  rest_of_strict (suc (suc n)) (x ∷ []) c s e =
      subst (λ (c : A). filter (is_before c) (x ∷ []) ≡ []) (ground arith)
        (lose_head x x [] (not_before_self x))
  rest_of_strict (suc (suc n)) (x ∷ y ∷ ys) c s e =
      lose_head c x (y ∷ ys)
        (not_before c x (All-last (λ z. is_before x z ≡ true) (suc n) (y ∷ ys) s.0 e))
      ∙ rest_of_strict (suc n) (y ∷ ys) c s.1 e

  -- A page after the last row of a page of `n` rows is what follows those `n` rows in the order.
  pub next_page :
      (n k : ℕ) (rows : List A) (c : A)
      → IsNodup (map id rows)
      → last? (page n rows) ≡ some c
      → page k (filter (is_before c) rows) ≡ take k (drop n (newest rows))
  unfolding page newest
  next_page n k rows c unique ends =
      let sorted = sort_by-IsOrdered newest_first newest_first-total newest_first_trans rows in
      let distinct = sort_by-IsNodup newest_first id rows unique in
      ap (take k) (
        sym (filter-sort_by newest_first newest_first-total newest_first_trans (is_before c) rows)
        ∙ rest_of_strict n (sort_by newest_first rows) c
            (IsStrict-of_IsOrdered (sort_by newest_first rows) sorted distinct) ends)

  -- What holds of all rows holds of the last row of a page, and of all rows of it.
  pub last-page {κ} :
      (P : A → Type κ) (n : ℕ) (rows : List A) {c : A}
      → All P rows
      → last? (page n rows) ≡ some c
      → P c
  unfolding page newest
  last-page P n rows h ends =
      All-last P n (sort_by newest_first rows) (All-sort_by newest_first P rows h) ends

  All-take {κ} : (P : A → Type κ) (n : ℕ) (xs : List A) → All P xs → All P (take n xs)
  All-take P zero xs h = tt
  All-take P (suc n) [] h = tt
  All-take P (suc n) (x ∷ xs) h = (h.0, All-take P n xs h.1)

  pub All-page {κ} : (P : A → Type κ) (n : ℕ) (rows : List A) → All P rows → All P (page n rows)
  unfolding page newest
  All-page P n rows h = All-take P n (sort_by newest_first rows) (All-sort_by newest_first P rows h)

  -- A row that is newer than all others heads the first page.
  pub page-newest :
      (n : ℕ) (x : A) (rows : List A)
      → All (λ y. newest_first x y ≡ true) rows
      → page (suc n) (x ∷ rows) ≡ x ∷ page n rows
  unfolding page newest
  page-newest n x rows h =
      ap (take (suc n)) (sort_by-front newest_first newest_first-total newest_first_trans x rows h)
