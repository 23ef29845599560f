-- ===== src/Gates/Sound/Metrics.antt =====
-- The gates of `evaluate_gates` (src/ats_lab/gates.py) and what their passing says of each row.
use mathlib.Core.Path.{subst}
use algorithmic_trading_stra.Base.{
  ℕ, Bool, true, false, not, ◌||◌, Option, none, some, List, [], ◌∷◌, ◌≡◌, refl, sym, any, All, map,
  arith, if◌then◌else◌, is_some, inl, inr, Bool-cases,
}
use algorithmic_trading_stra.Base.Int.{ℤ, pos, ltb_ℤ}
use algorithmic_trading_stra.Base.Outcome.{ok, or_raise, value_error, ◌>>=◌, ok-inj}
use algorithmic_trading_stra.Floats.{Floats}
use algorithmic_trading_stra.Gates.Evidence.{Evidence, Policy}
use algorithmic_trading_stra.Gates.Findings.{
  Findings, IsCleanButCost, mark-IsCleanButCost, passes, fails, lacks, mark,
}
use algorithmic_trading_stra.Gates.Windows.{
  Window, undated, malformed, dates, window, window_dates_are_malformed, required_trade_count,
  is_malformed, floor_for,
}
use algorithmic_trading_stra.Gates.Quality.{
  is_nil, over_values, below_floor, or_else, any_below_floor, minimum_trade_gate,
}

-- The value is there and does not trip the test.
abbrev pub Holds : {A : Type 0} → (A → Bool) → Option A → Type 0
Holds bad v = (x : _) × (v ≡ some x) × (bad x ≡ false)

value-Holds :
    {A : Type 0} (bad : A → Bool) (v : Option A)
    → is_some v ≡ true
    → (elim v [ none ↦ false | some x ↦ bad x ]) ≡ false
    → Holds bad v
value-Holds bad none h e = cc
value-Holds bad (some x) h e = (x, refl, e)

pub values-Hold :
    {A : Type 0} (bad : A → Bool) (vs : List (Option A))
    → any (λ v. not (is_some v)) vs ≡ false
    → any (λ v. elim v [ none ↦ false | some x ↦ bad x ]) vs ≡ false
    → All (Holds bad) vs
values-Hold bad [] h e = tt
values-Hold bad (v ∷ vs) h e = (
  value-Holds bad v (ground arith) (ground arith),
  values-Hold bad vs (ground arith) (ground arith),
)

pub over_values-Hold :
    {A : Type 0} (bad : A → Bool) (vs : List (Option A))
    → over_values bad vs ≡ passes
    → All (Holds bad) vs
over_values-Hold bad vs h = values-Hold bad vs (ground arith) (ground arith)

pub All-map :
    {A B : Type 0} (P : B → Type 0) (f : A → B) (xs : List A)
    → All P (map f xs)
    → All (λ x. P (f x)) xs
All-map P f [] h = tt
All-map P f (x ∷ xs) h = (h.0, All-map P f xs h.1)

module _ (F : Floats) where
  -- The row has at least the trades that its own window requires.
  abbrev pub TradesEnough : Policy F → Evidence F → Type 0
  TradesEnough policy row =
      (n : ℤ) × (floor : ℕ) × (row.trade_count ≡ some n)
      × (required_trade_count F policy row ≡ some floor)
      × (ltb_ℤ n (pos floor) ≡ false)

  floor_for-some :
      (policy : Policy F) (w : Window)
      → is_malformed w ≡ false
      → (floor : ℕ) × (floor_for F policy w ≡ some floor)
  floor_for-some policy undated h = (_, refl)
  floor_for-some policy malformed h = cc
  floor_for-some policy (dates s f) h = (_, refl)

  -- A floor exists wherever the dates are not malformed.
  pub required_trade_count-some :
      (policy : Policy F) (row : Evidence F)
      → window_dates_are_malformed F row ≡ false
      → (floor : ℕ) × (required_trade_count F policy row ≡ some floor)
  unfolding required_trade_count window_dates_are_malformed
  required_trade_count-some policy row h = floor_for-some policy (window F row) h

  below_floor-some :
      (n : Option ℤ) (o : Option ℕ) (floor : ℕ)
      → o ≡ some floor
      → (b : Bool) × (below_floor F n o ≡ some b)
  below_floor-some none o floor e = (false, refl)
  below_floor-some (some n) none floor e = cc
  below_floor-some (some n) (some f) floor e = (_, refl)

  or_else-some :
      (o r : Option Bool) {a b : Bool}
      → o ≡ some a
      → r ≡ some b
      → (c : Bool) × (or_else F o r ≡ some c)
  or_else-some none r e e' = cc
  or_else-some (some true) r e e' = (true, refl)
  or_else-some (some false) r e e' = (_, e')

  pub any_below_floor-some :
      (policy : Policy F) (rows : List (Evidence F))
      → any (window_dates_are_malformed F) rows ≡ false
      → (b : Bool) × (any_below_floor F policy rows ≡ some b)
  unfolding any_below_floor
  any_below_floor-some policy [] h = (false, refl)
  any_below_floor-some policy (row ∷ rows) h =
      let floor = required_trade_count-some policy row (ground arith) in
      or_else-some _ _
        (below_floor-some row.trade_count (required_trade_count F policy row) floor.0 floor.1).1
        (any_below_floor-some policy rows (ground arith)).1

  below_floor-TradesEnough :
      (policy : Policy F) (row : Evidence F)
      → is_some row.trade_count ≡ true
      → below_floor F row.trade_count (required_trade_count F policy row) ≡ some false
      → TradesEnough policy row
  below_floor-TradesEnough policy row h e =
      go row.trade_count (required_trade_count F policy row) h e
    where
      go :
          (n : Option ℤ) (o : Option ℕ)
          → is_some n ≡ true
          → below_floor F n o ≡ some false
          → (m : ℤ) × (floor : ℕ) × (n ≡ some m) × (o ≡ some floor) × (ltb_ℤ m (pos floor) ≡ false)
      go none o h e = cc
      go (some m) none h e = cc
      go (some m) (some floor) h e = (m, floor, refl, refl, cc)

  or_else-false :
      (o r : Option Bool) → or_else F o r ≡ some false → (o ≡ some false) × (r ≡ some false)
  or_else-false none r e = cc
  or_else-false (some true) r e = cc
  or_else-false (some false) r e = (refl, e)

  pub any_below_floor-TradesEnough :
      (policy : Policy F) (rows : List (Evidence F))
      → any (λ (r : Evidence F). not (is_some r.trade_count)) rows ≡ false
      → any_below_floor F policy rows ≡ some false
      → All (TradesEnough policy) rows
  unfolding any_below_floor
  any_below_floor-TradesEnough policy [] h e = tt
  any_below_floor-TradesEnough policy (row ∷ rows) h e =
      let parts = or_else-false _ _ e in
      (
        below_floor-TradesEnough policy row (ground arith) parts.0,
        any_below_floor-TradesEnough policy rows (ground arith) parts.1,
      )

  -- The gate of the trades never raises, and marks one outcome under one of its two names.
  pub minimum_trade_gate-ok :
      (policy : Policy F) (rows : List (Evidence F)) (f : Findings)
      → (g : Findings) × (minimum_trade_gate F policy rows f ≡ ok g)
  unfolding minimum_trade_gate
  minimum_trade_gate-ok policy rows f =
      elim (Bool-cases (any (window_dates_are_malformed F) rows)) [
        | inl e ↦ rw e (_, refl)
        | inr e ↦
            elim (Bool-cases
              (is_nil rows || any (λ (r : Evidence F). not (is_some r.trade_count)) rows)) [
                | inl e' ↦ rw e (rw e' (_, refl))
                | inr e' ↦ rw e (rw e' (rw (any_below_floor-some policy rows e).1 (_, refl)))
              ]
      ]

  -- What its passing says.
  pub minimum_trade_gate-TradesEnough :
      (policy : Policy F) (rows : List (Evidence F)) (f g : Findings)
      → minimum_trade_gate F policy rows f ≡ ok g
      → IsCleanButCost g
      → IsCleanButCost f × (is_nil rows ≡ false) × All (TradesEnough policy) rows
  unfolding minimum_trade_gate
  minimum_trade_gate-TradesEnough policy rows f g e fits = go _ _ _ refl refl e
    where
      go :
          (b c : Bool) (low : Option Bool)
          → is_nil rows || any (λ (r : Evidence F). not (is_some r.trade_count)) rows ≡ c
          → any_below_floor F policy rows ≡ low
          → (if b
              then ok (mark "window_dates_malformed" fails f)
              else if c
              then ok (mark "minimum_trades" lacks f)
              else (or_raise low (value_error "unparseable window dates") >>= λ low.
                  ok (mark "minimum_trades" (if low then fails else passes) f)))
            ≡ ok g
          → IsCleanButCost f × (is_nil rows ≡ false) × All (TradesEnough policy) rows
      go true c low _ _ e = cc (
          (mark-IsCleanButCost "window_dates_malformed" fails f refl
            (subst IsCleanButCost (sym (ok-inj e)) fits)).1)
      go false true low _ _ e = cc (
          (mark-IsCleanButCost "minimum_trades" lacks f refl
            (subst IsCleanButCost (sym (ok-inj e)) fits)).1)
      go false false none _ _ e = cc
      go false false (some true) _ _ e = cc (
          (mark-IsCleanButCost "minimum_trades" fails f refl
            (subst IsCleanButCost (sym (ok-inj e)) fits)).1)
      go false false (some false) h low e = (
        (mark-IsCleanButCost "minimum_trades" passes f refl
            (subst IsCleanButCost (sym (ok-inj e)) fits)).0,
        ground arith,
        any_below_floor-TradesEnough policy rows (ground arith) low,
      )
