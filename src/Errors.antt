-- ===== src/Errors.antt =====
-- errors.go: the sentinel errors, without the message that `%w` wraps; `plain` is an error with no
-- sentinel. A fallible function returns a result.
use geo_crdt.Common.{◌≡◌, refl, ap, ◌⊎◌, inl, inr, Bool, true, false}

pub data Error : Type 0 where
  invalid_op identity_collision invalid_command invalid_sync_state unknown_feature : Error
  document_mismatch base_mismatch unsupported_version invalid_snapshot compaction_gap : Error
  rebase_unsafe unsupported_geometry invalid_geometry invalid_topology plain : Error

-- The pair of a value and an `error`, of which one is there.
pub data Result {ℓ} (A : Type ℓ) : Type ℓ where
  err : Error → Result A
  ok : A → Result A

-- `if err != nil { return err }`
infixl 5 ◌>>=◌
abbrev pub ◌>>=◌ {κ ℓ} : {A : Type κ} {B : Type ℓ} → Result A → (A → Result B) → Result B
err reason >>= next = err reason
ok value >>= next = next value

-- `if bad { return err }`
abbrev pub refuse_if : Bool → Error → Result (Unit {0})
refuse_if false reason = ok tt
refuse_if true reason = err reason

-- The same for a check, which answers nothing but an `error`.
infixl 5 ◌>>◌
abbrev pub ◌>>◌ {ℓ} : {B : Type ℓ} → Result (Unit {0}) → Result B → Result B
check >> rest = check >>= λ _. rest

-- `fmt.Errorf("%w: %v", sentinel, err)`
abbrev pub rewrap {ℓ} : {A : Type ℓ} → Error → Result A → Result A
rewrap e (ok a) = ok a
rewrap e (err _) = err e

pub Result-cases {ℓ} :
    {A : Type ℓ} (r : Result A) → ((e : Error) × (r ≡ err e)) ⊎ ((a : A) × (r ≡ ok a))
Result-cases (err e) = inl (e, refl)
Result-cases (ok a) = inr (a, refl)

-- A step that succeeds has a first part that does.
pub bind_ok {ℓ κ} :
    {A : Type ℓ} {B : Type κ} (m : Result A) (f : A → Result B) (b : B)
    → (m >>= f) ≡ ok b
    → (a : A) × (m ≡ ok a) × (f a ≡ ok b)
bind_ok (ok a) f b e = (a, refl, e)
bind_ok (err x) f b e = absurd (cc)

pub ok_inj {ℓ} : {A : Type ℓ} {a b : A} → ok a ≡ ok b → a ≡ b
ok_inj {a = a} e = ap (λ r. elim r [ ok x ↦ x | err _ ↦ a ]) e

-- A guard that is followed by success was passed.
pub refuse_if-ok {ℓ} :
    {B : Type ℓ} (bad : Bool) (reason : Error) (rest : Result B) (b : B)
    → (refuse_if bad reason >> rest) ≡ ok b
    → (bad ≡ false) × (rest ≡ ok b)
refuse_if-ok false reason rest b e = (refl, e)
refuse_if-ok true reason rest b e = absurd (cc)

-- A check that is followed by success has passed.
pub check_ok {ℓ} :
    {B : Type ℓ} (check : Result (Unit {0})) (rest : Result B) (b : B)
    → (check >> rest) ≡ ok b
    → (check ≡ ok tt) × (rest ≡ ok b)
check_ok (ok tt) rest b e = (refl, e)
check_ok (err reason) rest b e = absurd (cc)
