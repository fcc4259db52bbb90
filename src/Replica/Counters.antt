-- ===== src/Replica/Counters.antt =====
-- What a local operation does to the clock and the numbering of a replica of one geometry.
use geo_crdt.Common.{ℕ, ◌+◌, ◌<◌, ◌||◌, leb, List, ◌≡◌, refl, arith, Bool-cases, inl, inr, ◌⊎◌}
use geo_crdt.Errors.{Error, Result, ok, err, invalid_command, Result-cases}
use geo_crdt.Clock.Limits.{inc, inc_below, max_timestamp}
use geo_crdt.Ops.GeometryOp.{GeometryOp}
use geo_crdt.Identity.{GeometryPayload, PayloadHash}
use geo_crdt.Geometry.State.{
  GeometryState, ApplyResult, OpOutcome, applied, duplicate, superseded, buffered, quarantined,
}
use geo_crdt.Geometry.Drain
use geo_crdt.Replica.{GeometryCrdt, build_local_op, commit, apply_local}

-- The operation succeeded and the counters went up by one, below the bound; or it failed, and
-- nothing but the geometry has changed.
abbrev pub IsCounted : GeometryCrdt → GeometryCrdt × Result (Unit {0}) → Type 0
IsCounted c r =
    ((r.1 ≡ ok tt)
      × (r.0.clock ≡ c.clock + 1)
      × (r.0.local_seq ≡ c.local_seq + 1)
      × (r.0.clock < max_timestamp)
      × (r.0.local_seq < max_timestamp))
    ⊎ ((e : Error) × (r.1 ≡ err e) × (r.0 ≡ record c { state = r.0.state }))

module _ (geometry_digest : GeometryPayload → PayloadHash) where
  commit-IsCounted :
      (c : GeometryCrdt) (clock seq : ℕ) (op : GeometryOp)
      (r : GeometryState × ApplyResult × List OpOutcome)
      → clock ≡ c.clock + 1
      → seq ≡ c.local_seq + 1
      → clock < max_timestamp
      → seq < max_timestamp
      → IsCounted c (commit geometry_digest c clock seq op r)
  unfolding commit
  commit-IsCounted c clock seq op (g, applied, drained) p q l m = inl (refl, p, q, l, m)
  commit-IsCounted c clock seq op (g, duplicate, drained) p q l m =
      inr (invalid_command, refl, refl)
  commit-IsCounted c clock seq op (g, superseded, drained) p q l m =
      inr (invalid_command, refl, refl)
  commit-IsCounted c clock seq op (g, buffered _, drained) p q l m =
      inr (invalid_command, refl, refl)
  commit-IsCounted c clock seq op (g, quarantined _, drained) p q l m =
      inr (invalid_command, refl, refl)

  -- On a replica whose counters are below `MaxTimestamp`, a local operation succeeds, and the clock
  -- and the numbering go up by exactly one and stay below the bound; or it fails, and nothing but
  -- the geometry has changed: not the log, the clock or the numbering.
  pub apply_local-counters :
      (c : GeometryCrdt) (op : GeometryOp)
      → c.clock < max_timestamp
      → c.local_seq < max_timestamp
      → IsCounted c (apply_local geometry_digest c op)
  unfolding apply_local
  apply_local-counters c op l m =
      elim (Bool-cases (leb max_timestamp (inc c.clock) || leb max_timestamp (inc c.local_seq))) [
        | inl e ↦ rw (apply_local, e) (inr (invalid_command, refl, refl))
        | inr e ↦
            elim (Result-cases
              (build_local_op geometry_digest c (inc c.local_seq) (inc c.clock) op)) [
                | inl (r, h) ↦ rw (apply_local, e, h) (inr (r, refl, refl))
                | inr (derived, h) ↦
                    rw (apply_local, e, h)
                      (commit-IsCounted c (inc c.clock) (inc c.local_seq) derived
                        (Drain.apply c.state derived) (inc_below c.clock l)
                        (inc_below c.local_seq m) (ground (arith, e)) (ground (arith, e)))
              ]
      ]
