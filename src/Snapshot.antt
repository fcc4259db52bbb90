-- ===== src/Snapshot.antt =====
-- sync.go: the wire form of snapshots.
pub mod Copy
pub mod Take
pub mod Checks
pub mod Shape
pub mod SameIds
pub mod Progress
pub mod Generations
pub mod Features
pub mod Restore
pub mod Validate
pub mod Load
pub mod Keys
use geo_crdt.Common.{ℕ, ℤ, String, Bool, Option, List, Map}
use geo_crdt.Float.{Float}
use geo_crdt.Json.{Raw}
use geo_crdt.Clock.Stamp.{Stamp}
use geo_crdt.Clock.OpRef.{OpRef}
use geo_crdt.Clock.Vector.{VectorClock}
use geo_crdt.Ops.Kinds.{GeometryType}
use geo_crdt.Ops.DocumentOp.{DocumentOp}

-- A pointer of the Go structs is an option. `init` is an `int`, which can be negative on the wire.
pub record KeySnapshot : Type 0 where
  pub init : Option ℤ
  pub stamp : Option Stamp

pub record VertexSnapshot : Type 0 where
  pub id : String
  pub parent : String
  pub key : KeySnapshot
  pub coord : List Float
  pub deleted : Bool
  pub move_reg : Option Stamp

pub record RingSnapshot : Type 0 where
  pub id : String
  pub key : KeySnapshot
  pub exterior : Bool
  pub deleted : Bool
  pub vertices : List VertexSnapshot

pub record PartSnapshot : Type 0 where
  pub id : String
  pub key : KeySnapshot
  pub typ : GeometryType
  pub deleted : Bool
  pub rings : List RingSnapshot

-- Dimensions below 0 are refused like 0.
pub record GeometrySnapshot : Type 0 where
  pub typ : GeometryType
  pub dims : ℕ
  pub parts : List PartSnapshot

pub record PropertySnapshot : Type 0 where
  pub value : Raw
  pub deleted : Bool
  pub reg : Option Stamp

pub record FeatureSnapshot : Type 0 where
  pub id : String
  pub base : Bool
  pub create_reg : Option Stamp
  pub delete_reg : Option Stamp
  pub gen_id : Option OpRef
  pub gen_stamp : Option Stamp
  pub seen_gens : List OpRef
  pub properties : Map String PropertySnapshot
  pub geometry : Option GeometrySnapshot

pub record Snapshot : Type 0 where
  pub version : ℕ
  pub id : String
  pub document_id : String
  pub site_id : String
  pub base_hash : String
  pub clock : ℕ
  pub vector_clock : VectorClock
  pub applied : VectorClock
  pub synced_through : ℕ
  pub outbox_ops : List DocumentOp
  pub features : List FeatureSnapshot
  pub retained_ops : List DocumentOp
  pub pending_ops : List DocumentOp
