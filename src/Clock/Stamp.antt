-- ===== src/Clock/Stamp.antt =====
-- clock.go: last-writer-wins stamps.
pub mod Order
pub mod Wins
use geo_crdt.Common.{ℕ, String, Bool, ◌||◌, not, ltb, ◌==◌, if◌then◌else◌, ℕ_discrete, ap}
use geo_crdt.Common.Texts.{String_discrete, text_lt, text_eq}

pub record Stamp : Type 0 where
  pub timestamp : ℕ
  pub site_id : String
  pub seq : ℕ

abbrev pub zero_stamp : Stamp
zero_stamp = record { timestamp = 0; site_id = ""; seq = 0 }

unfoldable pub is_set : Stamp → Bool
is_set s = not (s.timestamp == 0) || not (text_eq s.site_id "") || not (s.seq == 0)

unfoldable pub less : Stamp → Stamp → Bool
less s other =
    if not (s.timestamp == other.timestamp)
    then ltb s.timestamp other.timestamp
    else (if not (text_eq s.site_id other.site_id)
        then text_lt s.site_id other.site_id
        else ltb s.seq other.seq)

unfoldable pub newer : Stamp → Stamp → Bool
unfolding less
newer s other = less other s

unfoldable pub Stamp_discrete : Discrete Stamp
Stamp_discrete a b = elim (ℕ_discrete a.timestamp b.timestamp) [
  | yes o ↦ elim (String_discrete a.site_id b.site_id) [
    | yes p ↦ elim (ℕ_discrete a.seq b.seq) [
      | yes q ↦ yes (λ i. record { timestamp = o i; site_id = p i; seq = q i })
      | no n ↦ no (λ e. n (ap (λ (r : Stamp). r.seq) e))
    ]
    | no n ↦ no (λ e. n (ap (λ (r : Stamp). r.site_id) e))
  ]
  | no n ↦ no (λ e. n (ap (λ (r : Stamp). r.timestamp) e))
]
