-- ===== src/Identity.antt =====
-- identity.go: the hash that binds an operation's identity to one payload.
use geo_crdt.Common.{ℕ, String, Option, none, some, List, [], ◌∷◌, Map, if◌then◌else◌}
use geo_crdt.Common.Texts.{text_eq, text_lt}
use geo_crdt.Errors.{Result, ok, err, invalid_op, ◌>>=◌}
use geo_crdt.Float.{Float}
use geo_crdt.Json.{
  Json, Items, Fields, Raw, null, boolean, number, text, array, object, nil, cons, end, field,
  value, trailing, empty, malformed,
}
use geo_crdt.Ops.GeometryOp.{GeometryOp}
use geo_crdt.Ops.DocumentOp.{DocumentOp, normalize, strip_embedded_identity}

-- An object's fields as Go writes a map: names in order, and the last value of a repeated one. The
-- fields are entered from the last, so one that is there stays.
unfoldable pub put_field : String → Json → Fields → Fields
put_field name j end = field name j end
put_field name j (field other k fields) =
    let rest = put_field name j fields in
    if text_eq name other
    then field other k fields
    else if text_lt name other
    then field name j (field other k fields)
    else field other k rest

unfoldable mutual
  pub canonical : Json → Json
  canonical null = null
  canonical (boolean b) = boolean b
  canonical (number n) = number n
  canonical (text s) = text s
  canonical (array items) = array (canonical_items items)
  canonical (object fields) = object (canonical_fields fields)

  pub canonical_items : Items → Items
  canonical_items nil = nil
  canonical_items (cons j items) = cons (canonical j) (canonical_items items)

  pub canonical_fields : Fields → Fields
  canonical_fields end = end
  canonical_fields (field name j fields) = put_field name (canonical j) (canonical_fields fields)

-- `canonicalPayloadJSON`. The decoder reads the first value and no further.
unfoldable pub canonical_payload_json : Raw → Result Raw
unfolding canonical
canonical_payload_json empty = ok empty
canonical_payload_json (value j) = ok (value (canonical j))
canonical_payload_json (trailing j) = ok (value (canonical j))
canonical_payload_json malformed = err invalid_op

-- The loop of `hashDocumentOp` over the properties.
unfoldable pub canonical_properties : Map String Raw → Result (Map String Raw)
unfolding canonical_payload_json
canonical_properties [] = ok []
canonical_properties ((key, raw) ∷ properties) = do
  j ← canonical_payload_json raw
  rest ← canonical_properties properties
  ok ((key, j) ∷ rest)

-- What is hashed. The coordinates stand beside the operation by their bits.
pub record Payload : Type 0 where
  pub op : DocumentOp
  pub coord_bits : List Float
  pub ring_bits : List (List Float)

pub record CanonicalPart : Type 0 where
  pub geometry_op : Option GeometryOp
  pub coord_bits : List Float
  pub ring_bits : List (List Float)

-- The geometry payload with its part in canonical form and its coordinates set apart.
unfoldable pub canonical_part : Option GeometryOp → Result CanonicalPart
unfolding canonical_payload_json
canonical_part none = ok (record { geometry_op = none; coord_bits = []; ring_bits = [] })
canonical_part (some g) = do
  part ← canonical_payload_json g.part
  ok (record {
    geometry_op = some (record g { part = part; coord = []; ring = [] });
    coord_bits = g.coord;
    ring_bits = g.ring;
  })

unfoldable pub canonical_payload : DocumentOp → Result Payload
unfolding canonical_payload_json canonical_properties canonical_part normalize
    strip_embedded_identity
canonical_payload op = do
  let plain = strip_embedded_identity (normalize op)
  geometry ← canonical_payload_json plain.geometry
  properties ← canonical_properties plain.properties
  property_value ← canonical_payload_json plain.property_value
  part ← canonical_part plain.geometry_op
  ok (record {
    op = record plain {
      geometry = geometry;
      properties = properties;
      property_value = property_value;
      geometry_op = part.geometry_op;
    };
    coord_bits = part.coord_bits;
    ring_bits = part.ring_bits;
  })

-- A SHA-256 sum, read as a number.
abbrev pub PayloadHash : Type 0
PayloadHash = ℕ

-- `digest` is `sha256.Sum256` of the JSON encoding.
unfoldable pub hash_document_op : (Payload → PayloadHash) → DocumentOp → Result PayloadHash
unfolding canonical_payload
hash_document_op digest op = do payload ← canonical_payload op; ok (digest payload)

-- What `hashGeometryOp` hashes.
pub record GeometryPayload : Type 0 where
  pub op : GeometryOp
  pub coord_bits : List Float
  pub ring_bits : List (List Float)

-- `geometry_digest` is `sha256.Sum256` of the JSON encoding.
unfoldable pub hash_geometry_op : (GeometryPayload → PayloadHash) → GeometryOp → Result PayloadHash
unfolding canonical_payload_json
hash_geometry_op geometry_digest g = do
  part ← canonical_payload_json g.part
  ok (
      geometry_digest record {
        op = record g { part = part; coord = []; ring = [] };
        coord_bits = g.coord;
        ring_bits = g.ring;
      })
