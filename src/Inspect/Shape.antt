-- ===== src/Inspect/Shape.antt =====
-- The fields that fq/inspect_types.py reads of each object of a report, and a report without the
-- others.
use fq_client_py.Prelude.{
  ◌≡◌, refl, List, [], ◌∷◌, map, Option, none, some, Str, str_eq, if◌then◌else◌, str_eq_sound,
  arith,
}
use mathlib.Core.Option
use fq_client_py.Floats.{Floats}
use fq_client_py.Inspect.Json.{
  Json, null, array, object, Items, nil, cons, Fields, end, entry, lookup, get_or, or_default,
}
use fq_client_py.Inspect.Decode.{dict_of, section_of, dicts, dicts_of, items_of}

-- What is read of a value: all of it, or the known fields of an object or of each object of a list.
mutual
  pub data Shape : Type 0 where
    whole : Shape
    one_of : Known → Shape
    list_of : Known → Shape

  pub data Known : Type 0 where
    no_more : Known
    known : Str → Shape → Known → Known

abbrev pub wholes : List Str → Known → Known
wholes [] ks = ks
wholes (name ∷ names) ks = known name whole (wholes names ks)

unfoldable pub shape_of : Known → Str → Option Shape
shape_of no_more key = none
shape_of (known k s rest) key =
    let later = shape_of rest key in if str_eq k key then some s else later

module _ {fl : Floats} where
  unfoldable mutual
    pub only : Shape → Json fl → Json fl
    only (one_of ks) (object fields) = object (only_fields ks fields)
    only (list_of ks) (array xs) = array (only_items ks xs)
    only _ v = v

    pub only_items : Known → Items fl → Items fl
    only_items ks nil = nil
    only_items ks (cons x xs) = cons (only (one_of ks) x) (only_items ks xs)

    -- The fields that are known, with what is known of their values.
    pub only_fields : Known → Fields fl → Fields fl
    only_fields ks end = end
    only_fields ks (entry k v rest) = elim (shape_of ks k) [
      | none ↦ only_fields ks rest
      | some s ↦ entry k (only s v) (only_fields ks rest)
    ]

  abbrev pub seen : Option Shape → Option (Json fl) → Option (Json fl)
  seen none v = none
  seen (some s) v = Option.map (only s) v

  lookup-only_fields :
      (ks : Known) (raw : Fields fl) (key : Str)
      → lookup (only_fields ks raw) key ≡ seen (shape_of ks key) (lookup raw key)
  unfolding lookup only
  lookup-only_fields ks end key = ground arith
  lookup-only_fields ks (entry k v rest) key =
      ground (arith, lookup-only_fields ks rest key, str_eq_sound k key)

  or_default-whole :
      (default : Json fl) (o : Option (Json fl))
      → or_default default (seen (some whole) o) ≡ or_default default o
  unfolding only
  or_default-whole default none = refl
  or_default-whole default (some v) = refl

  dict_of-one_of :
      (ks : Known) (o : Option (Json fl))
      → dict_of (or_default null (seen (some (one_of ks)) o))
        ≡ Option.map (only_fields ks) (dict_of (or_default null o))
  unfolding only
  dict_of-one_of ks o = ground arith

  dicts-only_items :
      (ks : Known) (xs : Items fl) → dicts (only_items ks xs) ≡ map (only_fields ks) (dicts xs)
  unfolding only dicts
  dicts-only_items ks nil = refl
  dicts-only_items ks (cons x xs) = ground (arith, dicts-only_items ks xs)

  dicts_of-list_of :
      (ks : Known) (o : Option (Json fl))
      → dicts_of (or_default null (seen (some (list_of ks)) o))
        ≡ map (only_fields ks) (dicts_of (or_default null o))
  unfolding only
  dicts_of-list_of ks (some (array xs)) = dicts-only_items ks xs
  dicts_of-list_of ks _ = refl

  -- What the decoder does with a field, by the shape of the field.
  module _ (ks : Known) (raw : Fields fl) (key : Str) where
    pub get_or-only_fields :
        (default : Json fl)
        → shape_of ks key ≡ some whole
        → get_or (only_fields ks raw) key default ≡ get_or raw key default
    get_or-only_fields default h =
        rw (lookup-only_fields ks raw key, h) (or_default-whole default (lookup raw key))

    pub section_of-only_fields :
        (inner : Known)
        → shape_of ks key ≡ some (one_of inner)
        → section_of (only_fields ks raw) key ≡ Option.map (only_fields inner) (section_of raw key)
    unfolding section_of
    section_of-only_fields inner h =
        rw (lookup-only_fields ks raw key, h) (dict_of-one_of inner (lookup raw key))

    pub items_of-only_fields :
        (inner : Known)
        → shape_of ks key ≡ some (list_of inner)
        → items_of (only_fields ks raw) key ≡ map (only_fields inner) (items_of raw key)
    unfolding items_of
    items_of-only_fields inner h =
        rw (lookup-only_fields ks raw key, h) (dicts_of-list_of inner (lookup raw key))
