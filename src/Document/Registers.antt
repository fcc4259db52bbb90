-- ===== src/Document/Registers.antt =====
-- The property registers of a feature: one write, and two in either order.
pub mod History
use geo_crdt.Common.{
  ℕ, String, Bool, true, false, not, ◌&&◌, Option, none, some, List, [], ◌∷◌, if◌then◌else◌, ite,
  lookup, lookup-insert, ◌≡◌, ◌≢◌, ◌↔◌, refl, sym, ap, ◌∙◌, arith, Bool-cases, Option-cases, inl,
  inr, ◌⊎◌, subst, All,
}
use geo_crdt.Common.Texts.{String_discrete}
use geo_crdt.Json.{Raw}
use geo_crdt.Clock.Stamp
use geo_crdt.Clock.Stamp.{Stamp}
use geo_crdt.Clock.Stamp.Order.{less-IsStrictTotal}
use geo_crdt.Clock.Stamp.Wins.{wins, wins_set, wins_total, wins_trans}
use geo_crdt.Document.State.{PropertyState, FeatureState, new_feature}
use geo_crdt.Document.Apply.{register_of, write_property_register}

-- A call of `writePropertyRegister`.
pub record PropertyWrite : Type 0 where
  pub key : String
  pub state : PropertyState

unfoldable pub write : FeatureState → PropertyWrite → FeatureState
write f w = (write_property_register f w.key w.state.value w.state.deleted w.state.reg).0

-- The register of a key.
abbrev pub property_at : FeatureState → String → Option PropertyState
property_at f key = lookup String_discrete key f.properties

-- The register after a write to it.
unfoldable pub newest : Option PropertyState → PropertyState → PropertyState
newest none p = p
newest (some q) p = if wins p.reg q.reg then p else q

pub property_at-write :
    (f : FeatureState) (w : PropertyWrite) (key : String)
    → property_at (write f w) key
      ≡ ite
          (String_discrete w.key key)
          (some (newest (property_at f key) w.state))
          (property_at f key)
unfolding write write_property_register register_of newest wins Stamp.is_set
property_at-write f w key = elim (Option-cases (property_at f w.key)) [
  | inl e ↦ ground (arith, e, lookup-insert String_discrete w.key key w.state f.properties)
  | inr (q, e) ↦ ground (arith, e, lookup-insert String_discrete w.key key w.state f.properties)
]

-- Writes with different stamps, both set, leave the newer one, whichever comes first.
newest_comm :
    (o : Option PropertyState) (p q : PropertyState)
    → p.reg ≢ q.reg
    → Stamp.is_set p.reg ≡ true
    → Stamp.is_set q.reg ≡ true
    → newest (some (newest o p)) q ≡ newest (some (newest o q)) p
unfolding newest
newest_comm none p q n hp hq = ground (arith, wins_total p.reg q.reg n hp hq)
newest_comm (some o) p q n hp hq = ground (
  arith,
  wins_total p.reg q.reg n hp hq,
  wins_trans p.reg q.reg o.reg hp,
  wins_trans q.reg p.reg o.reg hq,
)

-- Two property writes with different stamps, neither of them zero, leave the same register at every
-- key in either order, whether or not they meet on one key.
pub write_comm :
    (f : FeatureState) (v w : PropertyWrite)
    → v.state.reg ≢ w.state.reg
    → Stamp.is_set v.state.reg ≡ true
    → Stamp.is_set w.state.reg ≡ true
    → (key : String) → property_at (write (write f v) w) key ≡ property_at (write (write f w) v) key
write_comm f v w n hv hw key = ground (
  arith,
  property_at-write (write f v) w key,
  property_at-write f v key,
  property_at-write (write f w) v key,
  property_at-write f w key,
  newest_comm (property_at f key) v.state w.state n hv hw,
)
