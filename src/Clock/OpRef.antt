-- ===== src/Clock/OpRef.antt =====
-- clock.go: operation references.
use geo_crdt.Common.{ℕ, String, Bool, ◌||◌, not, ◌==◌, ℕ_discrete, ap}
use geo_crdt.Common.Texts.{String_discrete, text_eq}

pub record OpRef : Type 0 where
  pub site_id : String
  pub seq : ℕ

-- The zero value refers to base state.
abbrev pub zero_ref : OpRef
zero_ref = record { site_id = ""; seq = 0 }

unfoldable pub is_set : OpRef → Bool
is_set r = not (r.seq == 0) || not (text_eq r.site_id "")

unfoldable pub OpRef_discrete : Discrete OpRef
OpRef_discrete a b = elim (String_discrete a.site_id b.site_id) [
  | yes p ↦ elim (ℕ_discrete a.seq b.seq) [
    | yes q ↦ yes (λ i. record { site_id = p i; seq = q i })
    | no n ↦ no (λ e. n (ap (λ (r : OpRef). r.seq) e))
  ]
  | no n ↦ no (λ e. n (ap (λ (r : OpRef). r.site_id) e))
]
