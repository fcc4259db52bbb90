-- ===== src/Document/Command/Counters.antt =====
-- What a local command does to the clock and the numbering.
use geo_crdt.Common.{ℕ, ◌+◌, ◌<◌, ◌||◌, leb, ◌≡◌, refl, arith, Bool-cases, inl, inr, ◌⊎◌}
use geo_crdt.Errors.{Error, Result, ok, err, invalid_command, Result-cases}
use geo_crdt.Clock.Limits.{inc, inc_below, max_timestamp}
use geo_crdt.Ops.DocumentOp.{DocumentOp, Command}
use geo_crdt.Identity.{Payload, PayloadHash}
use geo_crdt.Geometry.State.{applied, duplicate, superseded, buffered, quarantined}
use geo_crdt.Document.State.{Document}
use geo_crdt.Document.Apply.{Step, apply_op}
use geo_crdt.Document.Apply.Frame.{IsFrame, apply_op-IsFrame}
use geo_crdt.Document.Command.{build_local_op, commit, apply_command}

-- The command succeeded and the counters went up by one, below the bound; or it failed, and nothing
-- but features and waiting edits has changed.
abbrev pub IsCounted : Document → Document × Result (Unit {0}) → Type 0
IsCounted d r =
    ((r.1 ≡ ok tt)
      × (r.0.clock ≡ d.clock + 1)
      × (r.0.local_seq ≡ d.local_seq + 1)
      × (r.0.clock < max_timestamp)
      × (r.0.local_seq < max_timestamp))
    ⊎ ((e : Error) × (r.1 ≡ err e) × IsFrame d r.0)

module _ (digest : Payload → PayloadHash) where
  commit-IsCounted :
      (d : Document) (clock seq : ℕ) (op : DocumentOp) (s : Step)
      → clock ≡ d.clock + 1
      → seq ≡ d.local_seq + 1
      → clock < max_timestamp
      → seq < max_timestamp
      → IsFrame d s.0
      → IsCounted d (commit digest clock seq op s)
  unfolding commit
  commit-IsCounted d clock seq op (d', applied, drained) p q c l f = inl (refl, p, q, c, l)
  commit-IsCounted d clock seq op (d', duplicate, drained) p q c l f =
      inr (invalid_command, refl, f)
  commit-IsCounted d clock seq op (d', superseded, drained) p q c l f =
      inr (invalid_command, refl, f)
  commit-IsCounted d clock seq op (d', buffered _, drained) p q c l f =
      inr (invalid_command, refl, f)
  commit-IsCounted d clock seq op (d', quarantined _, drained) p q c l f =
      inr (invalid_command, refl, f)

  -- On a document whose counters are below `MaxTimestamp`, a local command succeeds, and the clock
  -- and the numbering go up by exactly one and stay below the bound; or it fails, and nothing but
  -- features and waiting edits has changed: not the log, the clock or the numbering.
  pub apply_command-counters :
      (d : Document) (command : Command)
      → d.clock < max_timestamp
      → d.local_seq < max_timestamp
      → IsCounted d (apply_command digest d command)
  unfolding apply_command
  apply_command-counters d command c l =
      elim (Bool-cases (leb max_timestamp (inc d.clock) || leb max_timestamp (inc d.local_seq))) [
        | inl e ↦ rw (apply_command, e) (inr (invalid_command, refl, refl))
        | inr e ↦ elim (Result-cases (build_local_op d (inc d.local_seq) (inc d.clock) command)) [
          | inl (r, h) ↦ rw (apply_command, e, h) (inr (r, refl, refl))
          | inr (op, h) ↦
              rw (apply_command, e, h)
                (commit-IsCounted d (inc d.clock) (inc d.local_seq) op (apply_op d op)
                  (inc_below d.clock c) (inc_below d.local_seq l) (ground (arith, e))
                  (ground (arith, e)) (apply_op-IsFrame d op))
        ]
      ]
