-- ===== src/Clock/Stamp/Wins.antt =====
-- The rule of last-writer-wins registers: a write takes a register that is not set, or is older.
use geo_crdt.Common.{◌≡◌, ◌≢◌, Bool, true, not, ◌&&◌, arith}
use geo_crdt.Clock.Stamp
use geo_crdt.Clock.Stamp.{Stamp}
use geo_crdt.Clock.Stamp.Order.{less-IsStrictTotal}

-- Whether a write with stamp `a` takes the register `r`.
unfoldable pub wins : Stamp → Stamp → Bool
wins a r = not (Stamp.is_set r && not (Stamp.newer a r))

pub wins_set : (a r : Stamp) → Stamp.is_set r ≡ true → wins a r ≡ Stamp.less r a
unfolding wins Stamp.newer
wins_set a r h = ground arith

-- Of two writes exactly one takes the other's register.
pub wins_total :
    (a b : Stamp)
    → a ≢ b
    → Stamp.is_set a ≡ true
    → Stamp.is_set b ≡ true
    → wins a b ≡ not (wins b a)
wins_total a b n ha hb =
    rw (wins_set a b hb, wins_set b a ha)
      (ground (
        arith,
        less-IsStrictTotal.total a b n,
        less-IsStrictTotal.trans a b a,
        less-IsStrictTotal.irrefl a,
      ))

-- What a winner loses to wins as well.
pub wins_trans :
    (a b r : Stamp) → Stamp.is_set a ≡ true → wins a r ≡ true → wins b a ≡ true → wins b r ≡ true
unfolding wins Stamp.newer
wins_trans a b r ha h k = ground (arith, less-IsStrictTotal.trans r a b)
