-- ===== src/Queue/Picks.antt =====
-- Rows that a query picks by their ids and an UPDATE then changes: with a primary key these are the
-- rows that the query's WHERE clause let through, and no more than its LIMIT.
use mathlib.Core.Path.{subst, ap}
use algorithmic_trading_stra.Base.{
  ℕ, ◌+◌, ◌≤◌, String, Bool, true, false, some, List, [], ◌∷◌, str_eq, if◌then◌else◌, select, take,
  order_by, count, length, All, All-order_by, All-take, ◌≡◌, refl, sym, ◌∙◌, arith, eq_iff, eq_refl,
  Bool-cases, inl, inr, length-take-le,
}
use algorithmic_trading_stra.Base.Texts.{text_mem}
use algorithmic_trading_stra.Queue.Rows.{WorkRow, item_at, id_in, ids_of}
use algorithmic_trading_stra.Queue.Invariant.{Distinct, All-map, absent}

-- the row that the table reads at its id
abbrev IsKeyed : List WorkRow → WorkRow → Type 0
IsKeyed xs y = item_at y.id xs ≡ some y

All-IsKeyed : (xs : List WorkRow) → Distinct (ids_of xs) → All (IsKeyed xs) xs
All-IsKeyed [] d = tt
All-IsKeyed (x ∷ xs) d = (
  rw (eq_refl x.id),
  All-map (λ y. (str_eq x.id y.id ≡ false) × IsKeyed xs y) (IsKeyed (x ∷ xs)) xs (λ y h. rw h.0 h.1)
      (both xs (absent x.id xs d.0) (All-IsKeyed xs d.1)),
)
  where
    both :
        (ys : List WorkRow)
        → All (λ y. str_eq x.id y.id ≡ false) ys
        → All (IsKeyed xs) ys
        → All (λ y. (str_eq x.id y.id ≡ false) × IsKeyed xs y) ys
    both [] a b = tt
    both (y ∷ ys) a b = ((a.0, b.0), both ys a.1 b.1)

same-row :
    (xs : List WorkRow) (x y : WorkRow)
    → IsKeyed xs x
    → IsKeyed xs y
    → str_eq x.id y.id ≡ true
    → y ≡ x
same-row xs x y k h e =
    let q : some y ≡ some x = sym h ∙ ap (λ i. item_at i xs) (sym ((eq_iff x.id y.id).0 e)) ∙ k in
    cc q

module _ (p : WorkRow → Bool) (le : WorkRow → WorkRow → Bool) (xs : List WorkRow) where
  abbrev pub picks : ℕ → List WorkRow
  picks n = take n (order_by le (select p xs))

  abbrev IsPick : WorkRow → Type 0
  IsPick y = IsKeyed xs y × (p y ≡ true)

  IsPick-if :
      (b : Bool) (y : WorkRow) (r : List WorkRow)
      → (b ≡ true → IsPick y)
      → All IsPick r
      → All IsPick (if b then y ∷ r else r)
  IsPick-if true y r h a = (h refl, a)
  IsPick-if false y r h a = a

  select-IsPick : (ys : List WorkRow) → All (IsKeyed xs) ys → All IsPick (select p ys)
  select-IsPick [] a = tt
  select-IsPick (y ∷ ys) a = IsPick-if (p y) y (select p ys) (λ e. (a.0, e)) (select-IsPick ys a.1)

  picks-IsPick : (n : ℕ) → Distinct (ids_of xs) → All IsPick (picks n)
  picks-IsPick n d =
      All-take IsPick n _ (All-order_by IsPick le _ (select-IsPick xs (All-IsKeyed xs d)))

  named :
      (x : WorkRow) (ys : List WorkRow)
      → IsKeyed xs x
      → All IsPick ys
      → text_mem x.id (ids_of ys) ≡ true
      → p x ≡ true
  named x [] k a h = cc
  named x (y ∷ ys) k a h = elim (Bool-cases (str_eq x.id y.id)) [
    | inl here ↦ subst (λ z. p z ≡ true) (same-row xs x y k a.0.0 here) a.0.1
    | inr away ↦ named x ys k a.1 (ground arith)
  ]

  -- A row of the table whose id was picked passes the query's test.
  pub picked :
      (n : ℕ) → Distinct (ids_of xs) → All (λ x. id_in (ids_of (picks n)) x ≡ true → p x ≡ true) xs
  picked n d =
      All-map (IsKeyed xs) (λ x. id_in (ids_of (picks n)) x ≡ true → p x ≡ true) xs
        (λ x k h. named x (picks n) k (picks-IsPick n d) h) (All-IsKeyed xs d)

count_one :
    (k : String) (xs : List WorkRow) → Distinct (ids_of xs) → count (λ r. str_eq r.id k) xs ≤ 1
count_one k [] d = omega arith
count_one k (x ∷ xs) d = elim (Bool-cases (str_eq x.id k)) [
  | inl here ↦
      rw here (omega (arith, none_left xs (rw ((eq_iff x.id k).0 here) at (absent x.id xs d.0))))
  | inr away ↦ rw away (omega (arith, count_one k xs d.1))
]
  where
    none_left :
        (ys : List WorkRow)
        → All (λ r. str_eq k r.id ≡ false) ys
        → count (λ r. str_eq r.id k) ys ≡ 0
    none_left [] a = refl
    none_left (y ∷ ys) a = ground (arith, none_left ys a.1, eq_iff k y.id, eq_iff y.id k, a.0)

count-or :
    (k : String) (ids : List String) (xs : List WorkRow)
    → count (id_in (k ∷ ids)) xs ≤ count (λ r. str_eq r.id k) xs + count (id_in ids) xs
count-or k ids [] = omega arith
count-or k ids (x ∷ xs) = ground (arith, count-or k ids xs)

-- No more rows have an id of a list than the list has ids.
pub count-id_in-le :
    (ids : List String) (xs : List WorkRow)
    → Distinct (ids_of xs)
    → count (id_in ids) xs ≤ length ids
count-id_in-le [] [] d = omega arith
count-id_in-le [] (x ∷ xs) d = omega (arith, count-id_in-le [] xs d.1)
count-id_in-le (k ∷ ids) xs d =
    omega (arith, count-or k ids xs, count_one k xs d, count-id_in-le ids xs d)

length-ids : (xs : List WorkRow) → length (ids_of xs) ≡ length xs
length-ids [] = refl
length-ids (x ∷ xs) = omega (arith, length-ids xs)

pub length-ids_of-take : (n : ℕ) (xs : List WorkRow) → length (ids_of (take n xs)) ≤ n
length-ids_of-take n xs = omega (arith, length-ids (take n xs), length-take-le n xs)
