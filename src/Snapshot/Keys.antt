-- ===== src/Snapshot/Keys.antt =====
-- sync.go: ordering keys in snapshots.
use geo_crdt.Common.{ℕ, ℤ, pos, negsuc, false, none, some, ◌≡◌, refl, if◌then◌else◌}
use geo_crdt.Clock.Stamp
use geo_crdt.Clock.Stamp.{Stamp}
use geo_crdt.Seq.Key.{SeqKey, initial_key, op_key}
use geo_crdt.Snapshot.{KeySnapshot}

unfoldable pub snapshot_key : SeqKey → KeySnapshot
snapshot_key key =
    if key.initial
    then record { init = some (pos key.pos); stamp = none }
    else record { init = none; stamp = some key.stamp }

-- A negative position is refused by `validateSnapshotKey` before keys are restored; here it reads
-- as 0.
abbrev position_of_int : ℤ → ℕ
position_of_int (pos n) = n
position_of_int (negsuc n) = 0

unfoldable pub restore_key : KeySnapshot → SeqKey
restore_key key = elim key.init [
  | some n ↦ initial_key (position_of_int n)
  | none ↦ elim key.stamp [
    | some stamp ↦ op_key stamp
    | none ↦ record { initial = false; stamp = Stamp.zero_stamp; pos = 0 }
  ]
]

-- The keys that `initialKey` and `opKey` make.
pub data IsKey : SeqKey → Type 0 where
  initial : (n : ℕ) → IsKey (initial_key n)
  made : (stamp : Stamp) → IsKey (op_key stamp)

-- A key comes back from its snapshot.
pub restore_key-snapshot_key : (key : SeqKey) → IsKey key → restore_key (snapshot_key key) ≡ key
unfolding snapshot_key restore_key
restore_key-snapshot_key key (initial n) = refl
restore_key-snapshot_key key (made stamp) = refl
