-- ===== src/Document/Tally.antt =====
-- document.go: `mergeTally` and the result of a merge.
use geo_crdt.Common.{ℕ, ◌+◌, List, [], ◌∷◌, ◌++◌, has, insert, erase, if◌then◌else◌}
use geo_crdt.Clock.OpRef.{OpRef, OpRef_discrete}
use geo_crdt.Geometry.State.{
  ApplyResult, applied, duplicate, superseded, buffered, quarantined, Reason, OpOutcome,
}
use geo_crdt.Document.State.{RefSet}

pub record QuarantinedOp : Type 0 where
  pub ref : OpRef
  pub reason : Reason

pub record MergeResult : Type 0 where
  pub applied_count : ℕ
  pub duplicates : ℕ
  pub superseded_refs : List OpRef
  pub buffered_refs : List OpRef
  pub quarantined_ops : List QuarantinedOp

pub record MergeTally : Type 0 where
  pub result : MergeResult
  pub still_buffered : RefSet
  pub buffered_order : List OpRef

abbrev pub new_merge_tally : MergeTally
new_merge_tally = record {
  result = record {
    applied_count = 0;
    duplicates = 0;
    superseded_refs = [];
    buffered_refs = [];
    quarantined_ops = [];
  };
  still_buffered = [];
  buffered_order = [];
}

unfoldable pub tally_duplicate : MergeTally → MergeTally
tally_duplicate t = record t { result = record (t.result) { duplicates = t.result.duplicates + 1 } }

-- `mergeTally.record`, by the outcome.
unfoldable pub tally_outcome : MergeTally → OpRef → ApplyResult → MergeTally
unfolding tally_duplicate
tally_outcome t ref applied = record t {
  result = record (t.result) { applied_count = t.result.applied_count + 1 };
  still_buffered = erase OpRef_discrete ref t.still_buffered;
}
tally_outcome t ref duplicate = tally_duplicate t
tally_outcome t ref superseded = record t {
  result = record (t.result) { superseded_refs = t.result.superseded_refs ++ ref ∷ [] };
  still_buffered = erase OpRef_discrete ref t.still_buffered;
}
tally_outcome t ref (buffered _) = if has OpRef_discrete ref t.still_buffered then t else record t {
  still_buffered = insert OpRef_discrete ref tt t.still_buffered;
  buffered_order = t.buffered_order ++ ref ∷ [];
}
tally_outcome t ref (quarantined reason) = record t {
  result = record (t.result) {
    quarantined_ops = t.result.quarantined_ops ++ record { ref = ref; reason = reason } ∷ [];
  };
  still_buffered = erase OpRef_discrete ref t.still_buffered;
}

unfoldable pub tally_record : MergeTally → OpOutcome → MergeTally
unfolding tally_outcome
tally_record t o = tally_outcome t o.ref o.outcome

-- `for _, o := range drained { tally.record(o) }`
unfoldable pub tally_all : MergeTally → List OpOutcome → MergeTally
unfolding tally_record
tally_all t [] = t
tally_all t (o ∷ outcomes) = tally_all (tally_record t o) outcomes

-- The loop of `finish` over `bufferedOrder`.
unfoldable pub waiting_refs : RefSet → List OpRef → List OpRef
waiting_refs still [] = []
waiting_refs still (ref ∷ order) =
    let rest = waiting_refs still order in if has OpRef_discrete ref still then ref ∷ rest else rest

unfoldable pub tally_finish : MergeTally → MergeResult
unfolding waiting_refs
tally_finish t = record (t.result) {
  buffered_refs = t.result.buffered_refs ++ waiting_refs t.still_buffered t.buffered_order;
}
