-- ===== src/Queue/Keeps/Transitions.antt =====
-- The guarded transition: each operation keeps the table valid and changes its items legally.
use algorithmic_trading_stra.Base.{
  String, Bool, true, false, not, Option, none, some, List, [], ◌∷◌, ◌++◌, str_eq, any, ◌≡◌, refl,
  sym, arith, Bool-cases, inl, inr,
}
use mathlib.Core.Path.{subst}
use algorithmic_trading_stra.Base.Json.{Json}
use algorithmic_trading_stra.Base.Outcome.{Result, ok, err, ◌>>◌}
use algorithmic_trading_stra.Models.{WorkState, scheduled, ready, archived, is_state}
use algorithmic_trading_stra.Queue.Rows.{WorkRow, Database, item_at, ids_of}
use algorithmic_trading_stra.Queue.Invariant.{IsClaimed, IsValid, IsSound, Advances, Advance-refl}
use algorithmic_trading_stra.Queue.Rules.{
  item_at-id, by_id-Advance, read-Advances, or_raise-Advances, if-Advances,
}
use algorithmic_trading_stra.Base.{All-append}
use algorithmic_trading_stra.Base.Texts.{text_mem}
use algorithmic_trading_stra.Queue.Invariant.{Distinct, Evolves-append}
use algorithmic_trading_stra.Queue.Transitions.{
  WorkItem, inserted, upsert_found, upsert_existing, upsert_work_item, ensure_matching_work_item,
  no_reason, Reason, moved, transition_work_item_row, transition_work_item,
}
use algorithmic_trading_stra.Queue.Claims.{}
use algorithmic_trading_stra.Queue.Blockers.{}
use algorithmic_trading_stra.Queue.Retries.{}
use algorithmic_trading_stra.Queue.Evaluation.{}

moved-IsSound :
    (row : WorkRow) (target : WorkState) (reason : Reason) (now : String)
    → is_state row.state archived ≡ false
    → IsSound row (moved row target reason now row)
moved-IsSound row target reason now h = ground arith

any-archived :
    (s : WorkState) (states : List WorkState)
    → any (is_state s) states ≡ true
    → any (is_state archived) states ≡ false
    → is_state s archived ≡ false
any-archived s [] a b = cc
any-archived s (t ∷ ts) a b = ground (arith, any-archived s ts)

pub transition_work_item_row-Advances :
    (row : WorkRow) (target : WorkState) (allowed : List WorkState) (reason : Reason) (now : String)
    (db : Database)
    → IsValid db.work_items
    → item_at row.id db.work_items ≡ some row
    → any (is_state archived) allowed ≡ false
    → Advances db.work_items (transition_work_item_row row target allowed reason now db)
unfolding transition_work_item_row
transition_work_item_row-Advances row target allowed reason now db v e h =
    if-Advances _ (is_state row.state target) _ _ (λ _. Advance-refl v)
      λ _.
        if-Advances _ (not (any (is_state row.state) allowed)) _ _ (λ _. tt)
          λ may. read-Advances _ _ _ (
            by_id-Advance (moved row target reason now) row.id row db.work_items v e (
              moved-IsSound row target reason now
                (any-archived row.state allowed (ground arith) h)))

-- The guarded transition, with any states to come from but `archived`.
pub transition_work_item-Advances :
    (id : String) (target : WorkState) (allowed : List WorkState) (reason : Reason) (now : String)
    (db : Database)
    → IsValid db.work_items
    → any (is_state archived) allowed ≡ false
    → Advances db.work_items (transition_work_item id target allowed reason now db)
unfolding transition_work_item
transition_work_item-Advances id target allowed reason now db v h =
    or_raise-Advances _ (item_at id db.work_items) _ _ λ row e.
      transition_work_item_row-Advances row target allowed reason now db v
        (subst (λ k. item_at k db.work_items ≡ some row) (sym (item_at-id id row db.work_items e))
          e)
        h

absent-append :
    (k : String) (xs : List WorkRow) (y : WorkRow)
    → text_mem k (ids_of xs) ≡ false
    → str_eq k y.id ≡ false
    → text_mem k (ids_of (xs ++ y ∷ [])) ≡ false
absent-append k [] y h e = ground arith
absent-append k (x ∷ xs) y h e = ground (arith, absent-append k xs y)

append-Distinct :
    (xs : List WorkRow) (y : WorkRow)
    → Distinct (ids_of xs)
    → item_at y.id xs ≡ none
    → Distinct (ids_of (xs ++ y ∷ []))
append-Distinct [] y d e = (refl, tt)
append-Distinct (x ∷ xs) y d e = elim (Bool-cases (str_eq x.id y.id)) [
  | inl here ↦ absurd (ground arith)
  | inr away ↦ (absent-append x.id xs y d.0 away, append-Distinct xs y d.1 (ground arith))
]

unit-Advances {ℓ} :
    {A : Type ℓ} (xs : List WorkRow) (m : Result (Unit {0})) (k : Result (Database × A))
    → Advances xs k
    → Advances xs (m >> k)
unit-Advances xs (ok _) k h = h
unit-Advances xs (err e) k h = tt

module _ (same_json : Json → Json → Bool) where
  upsert_found-Advances :
      (o : Option WorkRow) (item : WorkItem) (now : String) (db : Database)
      → IsValid db.work_items
      → item_at item.id db.work_items ≡ o
      → Advances db.work_items (upsert_found same_json o item now db)
  unfolding upsert_found upsert_existing
  upsert_found-Advances none item now db v e = record {
    valid = record {
      claims =
          All-append IsClaimed db.work_items (inserted item now ∷ []) v.claims
            (λ _. (refl, refl), tt);
      keys = append-Distinct db.work_items (inserted item now) v.keys e;
    };
    evolves = Evolves-append db.work_items _;
  }
  upsert_found-Advances (some row) item now db v e =
      unit-Advances _ (ensure_matching_work_item same_json row item) _ (
        if-Advances _ (is_state row.state item.state) _ _ (λ _. Advance-refl v)
          λ _.
            transition_work_item_row-Advances row ready (scheduled ∷ []) no_reason now db v
              (subst (λ k. item_at k db.work_items ≡ some row)
                (sym (item_at-id item.id row db.work_items e)) e)
              refl)

  pub upsert_work_item-Advances :
      (item : WorkItem) (now : String) (db : Database)
      → IsValid db.work_items
      → Advances db.work_items (upsert_work_item same_json item now db)
  unfolding upsert_work_item
  upsert_work_item-Advances item now db v = upsert_found-Advances _ item now db v refl
