-- ===== src/Seq/Key.antt =====
-- seq.go: the keys that order siblings; geometry.go: the order of parts and rings.
use geo_crdt.Common.{ℕ, Bool, true, false, not, ltb, if◌then◌else◌}
use geo_crdt.Clock.Stamp
use geo_crdt.Clock.Stamp.{Stamp}

pub record SeqKey : Type 0 where
  pub initial : Bool
  pub stamp : Stamp
  pub pos : ℕ

abbrev pub initial_key : ℕ → SeqKey
initial_key pos = record { initial = true; stamp = Stamp.zero_stamp; pos = pos }

abbrev pub op_key : Stamp → SeqKey
op_key stamp = record { initial = false; stamp = stamp; pos = 0 }

-- `a.initial != b.initial`
abbrev differs : Bool → Bool → Bool
differs true b = not b
differs false b = b

unfoldable pub before : SeqKey → SeqKey → Bool
unfolding Stamp.less
before a b =
    if differs a.initial b.initial
    then not a.initial
    else (if a.initial then ltb a.pos b.pos else Stamp.less b.stamp a.stamp)

-- `setKeyBefore`: initial entries first, then added ones, oldest first.
unfoldable pub set_key_before : SeqKey → SeqKey → Bool
unfolding Stamp.less
set_key_before a b =
    if differs a.initial b.initial
    then a.initial
    else (if a.initial then ltb a.pos b.pos else Stamp.less a.stamp b.stamp)
