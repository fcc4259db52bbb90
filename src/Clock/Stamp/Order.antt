-- ===== src/Clock/Stamp/Order.antt =====
-- The order on stamps that every last-writer-wins register goes by.
use geo_crdt.Common.{◌≡◌, ◌≢◌, true, false, arith}
use geo_crdt.Common.Order.{IsStrictTotal}
use geo_crdt.Common.Texts.{text_lt_irrefl, text_lt_trans, text_lt_total}
use geo_crdt.Clock.Stamp
use geo_crdt.Clock.Stamp.{Stamp}

less_irrefl : (a : Stamp) → Stamp.less a a ≡ false
unfolding Stamp.less
less_irrefl a = ground (arith, text_lt_irrefl a.site_id)

less_trans : (a b c : Stamp) → Stamp.less a b ≡ true → Stamp.less b c ≡ true → Stamp.less a c ≡ true
unfolding Stamp.less
less_trans a b c h k = ground (
  arith,
  text_lt_trans a.site_id b.site_id c.site_id,
  text_lt_irrefl a.site_id,
  text_lt_irrefl b.site_id,
)

stamp_path :
    (a b : Stamp) → a.timestamp ≡ b.timestamp → a.site_id ≡ b.site_id → a.seq ≡ b.seq → a ≡ b
stamp_path a b p q r = λ i. record { timestamp = p i; site_id = q i; seq = r i }

less_total : (a b : Stamp) → a ≢ b → Stamp.less a b ≡ false → Stamp.less b a ≡ true
unfolding Stamp.less
less_total a b n h = ground (arith, text_lt_total a.site_id b.site_id, stamp_path a b)

-- `less` is a strict total order on stamps: irreflexive, transitive, and of two different stamps
-- one is less than the other. So any two replicas pick the same winner.
pub less-IsStrictTotal : IsStrictTotal Stamp.less
less-IsStrictTotal = record { irrefl = less_irrefl; trans = less_trans; total = less_total }
