-- ===== src/Inspect/Json.antt =====
-- What `json.loads` gives: Python's values for JSON, and what fq/inspect_types.py uses of them. A
-- `dict` is the list of its entries. Which text gives which value is a parameter of the decoder.
use fq_client_py.Prelude.{
  ℤ, pos, zero, Bool, true, false, not, ◌&&◌, [], ◌∷◌, Option, none, some, Str, str_eq,
  if◌then◌else◌,
}
use fq_client_py.Floats.{Floats}

module _ (fl : Floats) where
  mutual
    pub data Json : Type 0 where
      null : Json
      boolean : Bool → Json
      integer : ℤ → Json
      floating : fl.F → Json
      string : Str → Json
      array : Items → Json
      object : Fields → Json

    pub data Items : Type 0 where
      nil : Items
      cons : Json → Items → Items

    pub data Fields : Type 0 where
      end : Fields
      entry : Str → Json → Fields → Fields

module _ {fl : Floats} where
  open fl use {zero_float, less_eq}

  unfoldable pub lookup : Fields fl → Str → Option (Json fl)
  lookup end key = none
  lookup (entry k v rest) key =
      let later = lookup rest key in if str_eq k key then some v else later

  abbrev pub or_default : Json fl → Option (Json fl) → Json fl
  or_default default none = default
  or_default default (some v) = v

  -- `raw.get(key, default)`
  abbrev pub get_or : Fields fl → Str → Json fl → Json fl
  get_or raw key default = or_default default (lookup raw key)

  -- `raw.get(key)`
  abbrev pub get : Fields fl → Str → Json fl
  get raw key = get_or raw key null

  -- Python's truth of a value. A float is false if it is zero, so NaN is true.
  unfoldable pub is_true : Json fl → Bool
  is_true null = false
  is_true (boolean b) = b
  is_true (integer (pos zero)) = false
  is_true (integer _) = true
  is_true (floating x) = not (less_eq x zero_float && less_eq zero_float x)
  is_true (string []) = false
  is_true (string (c ∷ s)) = true
  is_true (array nil) = false
  is_true (array (cons x xs)) = true
  is_true (object end) = false
  is_true (object (entry k v rest)) = true

  -- `x or default`
  unfoldable pub or_else : Json fl → Json fl → Json fl
  unfolding is_true
  or_else x default = if is_true x then x else default
