-- ===== src/Json.antt =====
-- `json.RawMessage` and what encoding/json makes of it. A message has no bytes, holds one JSON
-- value, holds a value and more text behind it, or starts with no valid value; the layout of the
-- text is left out.
use Prim.Native.Char.{code}
use geo_crdt.Common.{
  ℕ, ◌-◌, String, Bool, true, false, ◌&&◌, Option, none, some, List, [], ◌∷◌, leb, ◌==◌,
  if◌then◌else◌,
}
use geo_crdt.Float.{Float}

-- A number keeps its text (`json.Number`) and its value as a `float64`, none where it overflows.
pub record Number : Type 0 where
  pub lexeme : String
  pub value : Option Float

mutual
  pub data Json : Type 0 where
    null : Json
    boolean : Bool → Json
    number : Number → Json
    text : String → Json
    array : Items → Json
    object : Fields → Json

  pub data Items : Type 0 where
    nil : Items
    cons : Json → Items → Items

  pub data Fields : Type 0 where
    end : Fields
    field : String → Json → Fields → Fields

pub data Raw : Type 0 where
  empty malformed : Raw
  value trailing : Json → Raw

-- `len(raw) == 0`
abbrev pub is_empty : Raw → Bool
is_empty empty = true
is_empty _ = false

-- `json.Valid(raw)`
abbrev pub is_valid : Raw → Bool
is_valid (value _) = true
is_valid _ = false

-- `isNullGeometry` of ops.go
unfoldable pub is_null_geometry : Raw → Bool
is_null_geometry empty = true
is_null_geometry (value null) = true
is_null_geometry _ = false

-- Into a `float64`; `null` leaves the zero value.
unfoldable pub decode_float : Json → Option Float
decode_float null = some 0
decode_float (number n) = n.value
decode_float _ = none

-- `cons` of two decoded parts.
abbrev cons? {ℓ} : {A : Type ℓ} → Option A → Option (List A) → Option (List A)
cons? none rest = none
cons? (some a) none = none
cons? (some a) (some l) = some (a ∷ l)

module _ {ℓ} {A : Type ℓ} (decode : Json → Option A) where
  unfoldable pub decode_items : Items → Option (List A)
  decode_items nil = some []
  decode_items (cons j items) = cons? (decode j) (decode_items items)

  -- Into a slice; `null` leaves the nil slice.
  unfoldable pub decode_list : Json → Option (List A)
  unfolding decode_items
  decode_list null = some []
  decode_list (array items) = decode_items items
  decode_list _ = none

-- Into a `[]json.RawMessage`: every element as it stands.
unfoldable pub decode_raw : Json → Option Raw
decode_raw j = some (value j)

-- `json.Unmarshal(raw, &v)`, which refuses text behind the value.
unfoldable pub unmarshal {ℓ} : {A : Type ℓ} → (Json → Option A) → Raw → Option A
unmarshal decode (value j) = decode j
unmarshal decode _ = none

-- A field's name is matched with case folded, two special letters of Unicode included.
fold_code : ℕ → ℕ
fold_code c =
    if leb b'a' c && leb c b'z'
    then c - 32
    else if c == 0x17f
    then b'S'
    else if c == 0x212a
    then b'K'
    else c

unfoldable pub name_eq : String → String → Bool
unfolding fold_code
name_eq String.[] String.[] = true
name_eq (String.◌∷◌ c s) (String.◌∷◌ d t) =
    (fold_code (code c) == fold_code (code d)) && name_eq s t
name_eq _ _ = false

-- `geoJSONGeometry` of geometry.go
pub record GeoJsonGeometry : Type 0 where
  pub type_name : String
  pub coordinates : Raw

abbrev zero_header : GeoJsonGeometry
zero_header = record { type_name = ""; coordinates = empty }

-- Into a `string`; `null` leaves what was there.
abbrev decode_type : GeoJsonGeometry → Json → Option GeoJsonGeometry
decode_type h null = some h
decode_type h (text s) = some (record h { type_name = s })
decode_type h _ = none

decode_field : GeoJsonGeometry → String → Json → Option GeoJsonGeometry
decode_field h name j =
    if name_eq name "type"
    then decode_type h j
    else if name_eq name "coordinates"
    then some (record h { coordinates = value j })
    else some h

-- Fields in order: a later one of the same name overwrites.
decode_fields : Option GeoJsonGeometry → Fields → Option GeoJsonGeometry
decode_fields none fields = none
decode_fields (some h) end = some h
decode_fields (some h) (field name j fields) = decode_fields (decode_field h name j) fields

unfoldable pub decode_header : Json → Option GeoJsonGeometry
unfolding decode_fields decode_field name_eq
decode_header null = some zero_header
decode_header (object fields) = decode_fields (some zero_header) fields
decode_header _ = none
