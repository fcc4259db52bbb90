-- ===== src/Clock/Frontier/Advance.antt =====
-- The loop of `observe` through the staged numbers.
use geo_crdt.Common.{
  ℕ, zero, suc, ◌+◌, ◌<◌, ◌≤◌, Bool, true, false, ◌&&◌, ◌||◌, ltb, ◌==◌, if◌then◌else◌, insert,
  erase, has, length, ℕ_discrete, ◌≡◌, arith, subst, lookup-insert, lookup-erase, length-erase-has,
  Bool-cases, inl, inr,
}
use geo_crdt.Clock.Limits.{inc, inc_below, max_timestamp}
use geo_crdt.Clock.Frontier.{SeqSet, advance}

pub has-insert :
    (k j : ℕ) (s : SeqSet)
    → has ℕ_discrete j (insert ℕ_discrete k tt s) ≡ (k == j) || has ℕ_discrete j s
has-insert k j s = ground (arith, lookup-insert ℕ_discrete k j tt s)

has-erase :
    (k j : ℕ) (s : SeqSet)
    → has ℕ_discrete j (erase ℕ_discrete k s) ≡ (if k == j then false else has ℕ_discrete j s)
has-erase k j s = ground (arith, lookup-erase ℕ_discrete k j s)

-- What `advance` keeps: `seen` says which sequence numbers have been received, and the staged ones
-- are those beyond the frontier `n`.
abbrev pub Stages : (ℕ → Bool) → ℕ → SeqSet → Type 0
Stages seen n staged = (k : ℕ) → has ℕ_discrete k staged ≡ (seen k && ltb n k)

Stages-step :
    (seen : ℕ → Bool) (n : ℕ) (staged : SeqSet)
    → Stages seen n staged
    → Stages seen (n + 1) (erase ℕ_discrete (n + 1) staged)
Stages-step seen n staged h k = ground (arith, h k, has-erase (n + 1) k staged)

pub record Advanced (seen : ℕ → Bool) (n : ℕ) (r : ℕ × SeqSet) : Type 0 where
  pub grows : n ≤ r.0
  pub reached : (k : ℕ) → n < k → k ≤ r.0 → seen k ≡ true
  pub gap : seen (r.0 + 1) ≡ false
  pub stages : Stages seen r.0 r.1
  pub bounded : r.0 < max_timestamp

Advanced-step :
    (seen : ℕ → Bool) (n : ℕ) (r : ℕ × SeqSet)
    → seen (n + 1) ≡ true
    → Advanced seen (n + 1) r
    → Advanced seen n r
Advanced-step seen n r s a = record {
  grows = omega (arith, a.grows);
  reached = λ k lo hi. elim (ℕ_discrete (n + 1) k) [
    | yes e ↦ subst (λ x. seen x ≡ true) e s
    | no ne ↦ a.reached k (omega arith) hi
  ];
  gap = a.gap;
  stages = a.stages;
  bounded = a.bounded;
}

advance_more :
    (fuel n m : ℕ) (staged : SeqSet)
    → inc n ≡ m
    → has ℕ_discrete m staged ≡ true
    → advance (suc fuel) n staged ≡ advance fuel m (erase ℕ_discrete m staged)
unfolding advance
advance_more fuel n m staged e h = rw (e, h, advance, e)

advance_done :
    (fuel n m : ℕ) (staged : SeqSet)
    → inc n ≡ m
    → has ℕ_discrete m staged ≡ false
    → advance (suc fuel) n staged ≡ (n, staged)
unfolding advance
advance_done fuel n m staged e h = rw (e, h, advance)

-- The loop of `observe` stops at the first number not received; its fuel suffices.
pub advance-Advanced :
    (seen : ℕ → Bool)
    → ((k : ℕ) → seen k ≡ true → k < max_timestamp)
    → (fuel n : ℕ) (staged : SeqSet) → n < max_timestamp
    → length staged < fuel
    → Stages seen n staged
    → Advanced seen n (advance fuel n staged)
advance-Advanced seen small zero n staged b f h = absurd (omega arith)
advance-Advanced seen small (suc fuel) n staged b f h =
    elim (Bool-cases (has ℕ_discrete (n + 1) staged)) [
      | inl more ↦
          let s : seen (n + 1) ≡ true = ground (arith, h (n + 1)) in
          rw (advance_more fuel n (n + 1) staged (inc_below n b) more) (
            Advanced-step seen n _ s (
              advance-Advanced seen small fuel (n + 1) (erase ℕ_discrete (n + 1) staged)
                (small (n + 1) s) (omega (arith, length-erase-has ℕ_discrete (n + 1) staged more))
                (Stages-step seen n staged h)))
      | inr done ↦ rw (advance_done fuel n (n + 1) staged (inc_below n b) done) (record {
        grows = omega arith;
        reached = λ k lo hi. absurd (omega arith);
        gap = ground (arith, h (n + 1));
        stages = h;
        bounded = b;
      })
    ]
