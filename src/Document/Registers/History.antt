-- ===== src/Document/Registers/History.antt =====
-- The property registers of a feature after a whole history of writes.
use geo_crdt.Common.{
  String, true, false, none, some, List, [], ◌∷◌, ◌≡◌, ◌↔◌, refl, sym, ap, ◌∙◌, arith, Bool-cases,
  Option-cases, inl, inr, ◌⊎◌, subst, All,
}
use geo_crdt.Common.Texts.{String_discrete}
use geo_crdt.Clock.Stamp
use geo_crdt.Clock.Stamp.{Stamp}
use geo_crdt.Clock.Stamp.Order.{less-IsStrictTotal}
use geo_crdt.Clock.Stamp.Wins.{wins, wins_set}
use geo_crdt.Document.State.{PropertyState, FeatureState}
use geo_crdt.Document.Registers.{PropertyWrite, write, property_at, newest, property_at-write}

-- The writes in the order they arrive, newest first.
unfoldable pub write_all : FeatureState → List PropertyWrite → FeatureState
write_all f [] = f
write_all f (w ∷ h) = write (write_all f h) w

-- The write is in the history.
abbrev pub Has : PropertyWrite → List PropertyWrite → Type 0
Has w [] = ⊥
Has w (v ∷ h) = (w ≡ v) ⊎ Has w h

abbrev pub AreStamped : List PropertyWrite → Type 0
AreStamped = All (λ (w : PropertyWrite). Stamp.is_set w.state.reg ≡ true)

-- A register that was not there before holds one of the writes to its key.
stored :
    (f : FeatureState) (key : String)
    → property_at f key ≡ none
    → (h : List PropertyWrite) (p : PropertyState) → property_at (write_all f h) key ≡ some p
    → (w : PropertyWrite) × Has w h × (w.key ≡ key) × (w.state ≡ p)
unfolding write_all newest
stored f key e [] p q = absurd (cc)
stored f key e (v ∷ h) p q = elim (String_discrete v.key key) [
  | no n ↦
      let before : property_at (write_all f h) key ≡ some p =
        ground (arith, property_at-write (write_all f h) v key) in
      let (w, m, k, s) = stored f key e h p before in (w, inr m, k, s)
  | yes k ↦ elim (Option-cases (property_at (write_all f h) key)) [
    | inl none_before ↦
        (v, inl refl, k, ground (arith, none_before, property_at-write (write_all f h) v key))
    | inr (o, e') ↦ elim (Bool-cases (wins v.state.reg o.reg)) [
      | inl won ↦ (v, inl refl, k, ground (arith, e', won, property_at-write (write_all f h) v key))
      | inr lost ↦
          let before : property_at (write_all f h) key ≡ some p =
            ground (arith, e', lost, property_at-write (write_all f h) v key) in
          let (w, m, k', s) = stored f key e h p before in (w, inr m, k', s)
    ]
  ]
]

-- The register of a key that was written is there and at least as new as the write.
pub record IsBound (f : FeatureState) (key : String) (stamp : Stamp) : Type 0 where
  pub state : PropertyState
  pub there : property_at f key ≡ some state
  pub set : Stamp.is_set state.reg ≡ true
  pub newest : Stamp.less state.reg stamp ≡ false

IsBound-write :
    (f : FeatureState) (v : PropertyWrite) (key : String) (stamp : Stamp)
    → Stamp.is_set v.state.reg ≡ true
    → IsBound f key stamp
    → IsBound (write f v) key stamp
unfolding newest
IsBound-write f v key stamp hv b = elim (String_discrete v.key key) [
  | no n ↦ record {
    state = b.state;
    there = ground (arith, b.there, property_at-write f v key);
    set = b.set;
    newest = b.newest;
  }
  | yes k ↦ elim (Bool-cases (wins v.state.reg b.state.reg)) [
    | inl won ↦ record {
      state = v.state;
      there = ground (arith, b.there, won, property_at-write f v key);
      set = hv;
      newest = ground (
        arith,
        won,
        b.newest,
        wins_set v.state.reg b.state.reg b.set,
        less-IsStrictTotal.trans b.state.reg v.state.reg stamp,
      );
    }
    | inr lost ↦ record {
      state = b.state;
      there = ground (arith, b.there, lost, property_at-write f v key);
      set = b.set;
      newest = b.newest;
    }
  ]
]

IsBound-first :
    (f : FeatureState) (v : PropertyWrite)
    → Stamp.is_set v.state.reg ≡ true
    → ((p : PropertyState) → property_at f v.key ≡ some p → Stamp.is_set p.reg ≡ true)
    → IsBound (write f v) v.key v.state.reg
unfolding newest
IsBound-first f v hv hp = elim (Option-cases (property_at f v.key)) [
  | inl e ↦ record {
    state = v.state;
    there = ground (arith, e, property_at-write f v v.key);
    set = hv;
    newest = less-IsStrictTotal.irrefl v.state.reg;
  }
  | inr (o, e) ↦ elim (Bool-cases (wins v.state.reg o.reg)) [
    | inl won ↦ record {
      state = v.state;
      there = ground (arith, e, won, property_at-write f v v.key);
      set = hv;
      newest = less-IsStrictTotal.irrefl v.state.reg;
    }
    | inr lost ↦ record {
      state = o;
      there = ground (arith, e, lost, property_at-write f v v.key);
      set = hp o e;
      newest = ground (arith, lost, wins_set v.state.reg o.reg (hp o e));
    }
  ]
]

stamped-Has :
    (h : List PropertyWrite) (w : PropertyWrite)
    → AreStamped h
    → Has w h
    → Stamp.is_set w.state.reg ≡ true
stamped-Has [] w a m = absurd m
stamped-Has (v ∷ h) w a (inl e) = rw e a.0
stamped-Has (v ∷ h) w a (inr m) = stamped-Has h w a.1 m

same_stamp : (a b : Stamp) → Stamp.less a b ≡ false → Stamp.less b a ≡ false → a ≡ b
same_stamp a b h k = elim (Stamp.Stamp_discrete a b) [
  | yes e ↦ e
  | no n ↦ let l = less-IsStrictTotal.total a b n h in absurd (cc)
]

module _ (f : FeatureState) (fresh : (key : String) → property_at f key ≡ none) where
  IsBound-write_all :
      (h : List PropertyWrite) (w : PropertyWrite)
      → AreStamped h
      → Has w h
      → IsBound (write_all f h) w.key w.state.reg
  unfolding write_all
  IsBound-write_all [] w a m = absurd m
  IsBound-write_all (v ∷ h) w a (inl e) = rw e (
      IsBound-first (write_all f h) v a.0 (λ p q.
        let (u, m, k, s) = stored f v.key (fresh v.key) h p q in
        subst (λ (x : PropertyState). Stamp.is_set x.reg ≡ true) s (stamped-Has h u a.1 m)))
  IsBound-write_all (v ∷ h) w a (inr m) =
      IsBound-write (write_all f h) v w.key w.state.reg a.0 (IsBound-write_all h w a.1 m)

  -- Last writer wins: after any history of writes, none with the zero stamp, to a feature without
  -- registers, a key that was written holds one of the writes to it, and no write to it in the
  -- history has a newer stamp.
  pub last_writer :
      (h : List PropertyWrite) (w : PropertyWrite)
      → AreStamped h
      → Has w h
      → (v : PropertyWrite) × Has v h
        × (v.key ≡ w.key)
        × (property_at (write_all f h) w.key ≡ some v.state)
        × (Stamp.less v.state.reg w.state.reg ≡ false)
  last_writer h w a m =
      let b = IsBound-write_all h w a m in
      let (v, n, k, s) = stored f w.key (fresh w.key) h b.state b.there in
      (
        v,
        n,
        k,
        b.there ∙ ap some (sym s),
        subst (λ (x : PropertyState). Stamp.less x.reg w.state.reg ≡ false) (sym s) b.newest,
      )

  -- What a history with fewer or as many writes leaves, in the other.
  leaves :
      (g h : List PropertyWrite) (key : String) (p : PropertyState)
      → AreStamped g
      → AreStamped h
      → ((w : PropertyWrite) → Has w g ↔ Has w h)
      → ((v w : PropertyWrite)
          → Has v g
          → Has w g
          → v.key ≡ w.key
          → v.state.reg ≡ w.state.reg
          → v.state ≡ w.state)
      → property_at (write_all f g) key ≡ some p
      → property_at (write_all f h) key ≡ some p
  leaves g h key p ag ah same only e =
      let (w, m, k, s) = stored f key (fresh key) g p e in
      let (v, n, kv, there, older) = last_writer h w ah ((same w).0 m) in
      let (u, _, ku, there', older') = last_writer g v ag ((same v).1 n) in
      let at : property_at (write_all f g) v.key ≡ some p =
        subst (λ x. property_at (write_all f g) x ≡ some p) (sym (kv ∙ k)) e in
      let state : u.state ≡ w.state = cc in
      let reg : w.state.reg ≡ v.state.reg = sym (
        same_stamp v.state.reg w.state.reg older
          (subst (λ (x : PropertyState). Stamp.less x.reg v.state.reg ≡ false) state older')) in
      let at' : property_at (write_all f h) key ≡ some v.state =
        subst (λ x. property_at (write_all f h) x ≡ some v.state) k there in
      at' ∙ ap some (sym (only w v m ((same v).1 n) (sym kv) reg) ∙ s)

  -- The registers of a feature that had none converge: two histories with the same writes, in
  -- whatever order and however often each arrives, leave the same register at every key, where a
  -- key's stamps tell its writes apart and none is the zero stamp.
  pub writes-converge :
      (g h : List PropertyWrite) (key : String)
      → AreStamped g
      → AreStamped h
      → ((w : PropertyWrite) → Has w g ↔ Has w h)
      → ((v w : PropertyWrite)
          → Has v g
          → Has w g
          → v.key ≡ w.key
          → v.state.reg ≡ w.state.reg
          → v.state ≡ w.state)
      → property_at (write_all f g) key ≡ property_at (write_all f h) key
  writes-converge g h key ag ah same only = elim (Option-cases (property_at (write_all f g) key)) [
    | inr (p, e) ↦ e ∙ sym (leaves g h key p ag ah same only e)
    | inl e ↦ elim (Option-cases (property_at (write_all f h) key)) [
      | inl e' ↦ e ∙ sym e'
      | inr (p, e') ↦
          let back : property_at (write_all f g) key ≡ some p =
            leaves h g key p ah ag (λ w. ((same w).1, (same w).0))
              (λ v w m n. only v w ((same v).1 m) ((same w).1 n)) e' in
          absurd (cc)
    ]
  ]
