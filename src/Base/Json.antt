-- ===== src/Base/Json.antt =====
-- Decoded JSON documents, as `json.loads` returns them and SQLite's `json_extract` reads them. A number
-- other than a natural is kept by its literal.
use Prim.Native.Nat.{ℕ}
use Prim.Native.String.{String}
use mathlib.Core.Bool.{Bool, false}
use mathlib.Core.Option.{Option, none, some}
use mathlib.Core.List.{List, [], ◌∷◌}
use text.Mathlib.Text.{◌==◌ as str_eq}
use algorithmic_trading_stra.Base.Tests.{if◌then◌else◌}

mutual
  pub data Json : Type 0 where
    null : Json
    bool : Bool → Json
    num : ℕ → Json
    literal : String → Json
    str : String → Json
    arr : Items → Json
    obj : Fields → Json

  pub data Items : Type 0 where
    nil : Items
    cons : Json → Items → Items

  pub data Fields : Type 0 where
    end : Fields
    field : String → Json → Fields → Fields

-- `d.get(key)`
abbrev pub get_field : String → Fields → Option Json
get_field k end = none
get_field k (field j v fs) = let rest = get_field k fs in if str_eq j k then some v else rest

-- `d[key] = value`
abbrev pub set_field : String → Json → Fields → Fields
set_field k v end = field k v end
set_field k v (field j w fs) =
    let rest = set_field k v fs in if str_eq j k then field j v fs else field j w rest

abbrev present : Option Json → Option Json
present none = none
present (some null) = none
present (some v) = some v

-- `json_extract(document, '$.key')`: SQL's NULL where the member is missing or null
abbrev pub member : String → Option Json → Option Json
member k (some (obj fs)) = present (get_field k fs)
member k _ = none

-- the SQL value is this text
abbrev pub is_text : String → Option Json → Bool
is_text s (some (str t)) = str_eq t s
is_text s _ = false

-- the length of a JSON array, `COALESCE(json_array_length(…), 0)`
pub json_array_length : Option Json → ℕ
json_array_length (some (arr xs)) = go xs
  where
    go : Items → ℕ
    go = elim [ nil ↦ 0 | cons x (r → n) ↦ Prim.Native.Nat.suc n ]
json_array_length _ = 0

-- a JSON array of texts
pub texts : List String → Items
texts [] = nil
texts (s ∷ ss) = cons (str s) (texts ss)

abbrev pub optional : Option String → Json
optional none = null
optional (some s) = str s
