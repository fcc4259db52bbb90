-- ===== src/Clock/Frontier/Site.antt =====
-- `observe`, one site at a time.
use geo_crdt.Common.{
  ℕ, suc, ◌+◌, ◌<◌, ◌≤◌, String, Bool, true, false, ◌||◌, [], ◌∷◌, leb, ◌==◌, if◌then◌else◌, insert,
  length, ℕ_discrete, ◌≡◌, ◌≢◌, refl, arith, subst, lookup-insert, lookup-erase, Bool-cases, inl,
  inr, sym, Map, ◌∙◌, dec_lt, dec_le, List-cases, ap₂,
}
use geo_crdt.Common.Texts.{String_discrete}
use geo_crdt.Clock.Limits.{inc, inc_below, max_timestamp}
use geo_crdt.Clock.Vector.{VectorClock, seq_of}
use geo_crdt.Clock.Vector.Laws.{seq_of-insert_self, seq_of-insert_ne}
use geo_crdt.Clock.Frontier.{SeqSet, FrontierClock, staged_at, advance, restage, observe}
use geo_crdt.Clock.Frontier.Advance.{has-insert, Stages, Advanced, advance-Advanced}

-- One site of the clock: `seen` are the numbers received, `n` is the frontier.
pub record TracksAt (seen : ℕ → Bool) (n : ℕ) (staged : SeqSet) : Type 0 where
  pub reached : (k : ℕ) → 0 < k → k ≤ n → seen k ≡ true
  pub gap : seen (n + 1) ≡ false
  pub stages : Stages seen n staged

-- What `observe` does to the entries of its own site.
pub observe_at : ℕ → SeqSet → ℕ → ℕ × SeqSet
observe_at n staged seq =
    if leb seq n
    then (n, staged)
    else (if seq == inc n
        then advance (suc (length staged)) seq staged
        else (n, insert ℕ_discrete seq tt staged))

abbrev pub with_seen : ℕ → (ℕ → Bool) → ℕ → Bool
with_seen seq seen k = (seq == k) || seen k

module _ (seen : ℕ → Bool) (seq n : ℕ) (staged : SeqSet) where
  abbrev pub IsSmall : Type 0
  IsSmall = (k : ℕ) → with_seen seq seen k ≡ true → k < max_timestamp

  TracksAt-known : seq ≤ n → TracksAt seen n staged → TracksAt (with_seen seq seen) n staged
  TracksAt-known le h = record {
    reached = λ k lo hi. ground (arith, h.reached k lo hi);
    gap = ground (arith, h.gap);
    stages = λ k. ground (arith, h.stages k);
  }

  TracksAt-staged :
      n + 1 < seq
      → TracksAt seen n staged
      → TracksAt (with_seen seq seen) n (insert ℕ_discrete seq tt staged)
  TracksAt-staged lt h = record {
    reached = λ k lo hi. ground (arith, h.reached k lo hi);
    gap = ground (arith, h.gap);
    stages = λ k. ground (arith, h.stages k, has-insert seq k staged);
  }

  Stages-next : seq ≡ n + 1 → TracksAt seen n staged → Stages (with_seen seq seen) seq staged
  Stages-next e h k = elim (ℕ_discrete seq k) [
    | yes p ↦
        let g : seen k ≡ false = subst (λ x. seen x ≡ false) (sym e ∙ p) h.gap in
        ground (arith, h.stages k)
    | no p ↦ ground (arith, h.stages k)
  ]

  TracksAt-next :
      IsSmall
      → seq ≡ n + 1
      → TracksAt seen n staged
      → (r : ℕ × SeqSet) → Advanced (with_seen seq seen) seq r
      → TracksAt (with_seen seq seen) r.0 r.1
  TracksAt-next small e h r a = record {
    reached = λ k lo hi. elim (dec_lt seq k) [
      | yes p ↦ a.reached k p hi
      | no p ↦ elim (ℕ_discrete seq k) [
        | yes q ↦ ground arith
        | no q ↦ ground (arith, h.reached k lo (omega arith))
      ]
    ];
    gap = a.gap;
    stages = a.stages;
  }

  frontier_small : IsSmall → TracksAt seen n staged → n < max_timestamp
  frontier_small small h = elim (dec_lt 0 n) [
    | yes p ↦ small n (ground (arith, h.reached n p (omega arith)))
    | no p ↦ omega arith
  ]

  pub observe_at-TracksAt :
      IsSmall
      → TracksAt seen n staged
      → TracksAt (with_seen seq seen) (observe_at n staged seq).0 (observe_at n staged seq).1
  unfolding observe_at
  observe_at-TracksAt small h =
      let s : seq < max_timestamp = small seq (ground arith) in
      elim (dec_le seq n) [
        | yes le ↦ simp (leb_true le) (TracksAt-known le h)
        | no gt ↦ elim (ℕ_discrete seq (n + 1)) [
          | yes e ↦
              simp (leb_false gt, inc_is, eq_true e)
                (TracksAt-next small e h _ (
                  advance-Advanced (with_seen seq seen) small (suc (length staged)) seq staged s
                    (omega arith) (Stages-next e h)))
          | no ne ↦ simp (leb_false gt, inc_is, eq_false ne) (TracksAt-staged (omega arith) h)
        ]
      ]
    where
      leb_true : seq ≤ n → leb seq n ≡ true
      leb_true h = ground arith

      leb_false : ¬ (seq ≤ n) → leb seq n ≡ false
      leb_false h = ground arith

      inc_is : inc n ≡ n + 1
      inc_is = inc_below n (frontier_small small h)

      eq_true : seq ≡ n + 1 → (seq == (n + 1)) ≡ true
      eq_true h = ground arith

      eq_false : ¬ (seq ≡ n + 1) → (seq == (n + 1)) ≡ false
      eq_false h = ground arith

staged_at-insert_self :
    (f : FrontierClock) (c : VectorClock) (s : String) (r : SeqSet)
    → staged_at (record { frontier = c; staged = restage s r f.staged }) s ≡ r
unfolding staged_at restage
staged_at-insert_self f c s [] = ground (arith, lookup-erase String_discrete s s f.staged)
staged_at-insert_self f c s (e ∷ r) =
    ground (arith, lookup-insert String_discrete s s (e ∷ r) f.staged)

staged_at-insert_ne :
    (f : FrontierClock) (c : VectorClock) (s t : String) (r : SeqSet)
    → s ≢ t
    → staged_at (record { frontier = c; staged = restage s r f.staged }) t ≡ staged_at f t
unfolding staged_at restage
staged_at-insert_ne f c s t [] n = ground (arith, lookup-erase String_discrete s t f.staged)
staged_at-insert_ne f c s t (e ∷ r) n =
    ground (arith, lookup-insert String_discrete s t (e ∷ r) f.staged)

-- The two entries that a site has in the clock.
abbrev pub site : FrontierClock → String → ℕ × SeqSet
site f s = (seq_of f.frontier s, staged_at f s)

insert-ne_nil : (k : ℕ) (r : SeqSet) → insert ℕ_discrete k tt r ≢ []
unfolding insert
insert-ne_nil k [] e = cc
insert-ne_nil k ((j, w) ∷ r) e = ground arith

pub restage-insert :
    (k : ℕ) (s : String) (r : SeqSet) (m : Map String SeqSet)
    → insert String_discrete s (insert ℕ_discrete k tt r) m ≡ restage s (insert ℕ_discrete k tt r) m
unfolding restage
restage-insert k s r m = elim (List-cases (insert ℕ_discrete k tt r)) [
  | inl e ↦ absurd (insert-ne_nil k r e)
  | inr (x, xs, e) ↦ rw e
]

-- `observe` works on the entries of its site alone.
pub observe_self :
    (f : FrontierClock) (s : String) (seq : ℕ)
    → site (observe f s seq) s ≡ observe_at (seq_of f.frontier s) (staged_at f s) seq
unfolding observe observe_at
observe_self f s seq = elim (Bool-cases (leb seq (seq_of f.frontier s))) [
  | inl e ↦ rw e
  | inr e ↦ elim (Bool-cases (seq == inc (seq_of f.frontier s))) [
    | inl q ↦
        rw (e, q)
          (ap₂ (λ a b. (a, b)) (seq_of-insert_self s _ f.frontier) (staged_at-insert_self f _ s _))
    | inr q ↦ rw (e, q, restage-insert) (ap₂ (λ a b. (a, b)) refl (staged_at-insert_self f _ s _))
  ]
]

pub observe_other :
    (f : FrontierClock) (s t : String) (seq : ℕ) → s ≢ t → site (observe f s seq) t ≡ site f t
unfolding observe
observe_other f s t seq n = elim (Bool-cases (leb seq (seq_of f.frontier s))) [
  | inl e ↦ rw e
  | inr e ↦ elim (Bool-cases (seq == inc (seq_of f.frontier s))) [
    | inl q ↦
        rw (e, q)
          (ap₂ (λ a b. (a, b)) (seq_of-insert_ne s t _ f.frontier n)
            (staged_at-insert_ne f _ s t _ n))
    | inr q ↦ rw (e, q, restage-insert) (ap₂ (λ a b. (a, b)) refl (staged_at-insert_ne f _ s t _ n))
  ]
]
