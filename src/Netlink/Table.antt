-- ===== src/Netlink/Table.antt =====
-- `decode_nlattr` of src/nl_decode_common.c: the table of attributes by type that every decoder
-- fills first.
use flower_route.Base.{
  ℕ, ◌≤◌, ◌≡◌, refl, ◌∙◌, Bool, true, false, Option, none, some, List, [], ◌∷◌, ◌==◌, if◌then◌else◌,
}
use flower_route.Ret.{Ret, ok, error}
use flower_route.Netlink.{Payload, Attrs, end, attr, DataType, unspec, Callback, each, Mnl}

-- `const struct nlattr **tb`; NULL is `none`.
abbrev pub AttrTable : Type 0
AttrTable = ℕ → Option Payload

abbrev pub empty_table : AttrTable
empty_table _ = none

-- `struct type_map`, by attribute type; what the initialiser leaves out is `MNL_TYPE_UNSPEC`.
abbrev pub TypeMap : Type 0
TypeMap = ℕ → DataType

abbrev pub type_map : List (ℕ × DataType) → TypeMap
type_map [] type = unspec
type_map ((t, d) ∷ rest) type = if type == t then d else type_map rest type

abbrev pub is_unspec : DataType → Bool
is_unspec unspec = true
is_unspec _ = false

abbrev pub store : ℕ → Payload → AttrTable → AttrTable
store type payload tb t = if t == type then some payload else tb t

module _ (m : Mnl) (max : ℕ) (typemap : TypeMap) where
  unfoldable pub decode_nlattr : Callback AttrTable
  decode_nlattr type payload tb =
      if m.type_valid type max
      then (if is_unspec (typemap type)
          then ok tb
          else if m.validate payload (typemap type)
          then ok (store type payload tb)
          else error)
      else ok tb

  -- `mnl_attr_parse_nested(attr, decode_nlattr_.._cb, tb)`.
  unfoldable pub parse_table : Attrs → Ret AttrTable
  unfolding decode_nlattr
  parse_table list = m.parse decode_nlattr list empty_table

  -- An attribute that the map knows and whose payload is of the kind that the map says.
  abbrev pub Valid : ℕ → Payload → Type 0
  Valid type payload =
      (type ≤ max) × (is_unspec (typemap type) ≡ false) × (m.validate payload (typemap type) ≡ true)

  abbrev pub AllValid : Attrs → Type 0
  AllValid end = Unit
  AllValid (attr type payload list) = Valid type payload × AllValid list

abbrev pub fill : Attrs → AttrTable → AttrTable
fill end tb = tb
fill (attr type payload list) tb = fill list (store type payload tb)

module _ (m : Mnl) (max : ℕ) (typemap : TypeMap) where
  each-fill :
      (list : Attrs) (tb : AttrTable)
      → AllValid m max typemap list
      → each (decode_nlattr m max typemap) list tb ≡ ok (fill list tb)
  unfolding decode_nlattr
  each-fill end tb v = refl
  each-fill (attr type payload list) tb v =
      rw (m.type_valid_le type max v.0.0, v.0.1, v.0.2) (each-fill list (store type payload tb) v.1)

  -- A message of attributes that the map knows, with payloads of the map's types, fills the table
  -- with all of them, the last of each type.
  pub parse_table-fill :
      (list : Attrs)
      → AllValid m max typemap list
      → parse_table m max typemap list ≡ ok (fill list empty_table)
  unfolding parse_table
  parse_table-fill list v = m.parse_each _ list empty_table ∙ each-fill list empty_table v
