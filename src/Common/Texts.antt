-- ===== src/Common/Texts.antt =====
-- The order and equality of Go strings. `compare` goes by code points, which on UTF-8 text is the
-- order of the bytes that Go's `<` uses.
use Prim.Native.Nat.{compare as compare_ℕ}
use Prim.Native.Char.{Char, code}
use Prim.Native.String.{String, compare, then}
use Prim.Native.String.compare as clause
use text.Mathlib.Text.{◌==◌, is_lt}
use text.Mathlib.TextEquality.{eq_iff, Char-path}
use text.Mathlib.TextPositions.{compare_refl}
use mathlib.Core.Path.{◌≡◌, refl, ap, ap₂}
use mathlib.Core.Bool.{Bool, true, false}
use mathlib.Core.Logic.{◌≢◌, ◌⊎◌, inl, inr, ite}
use native.Mathlib.Omega.{arith}

-- `s < t`
abbrev pub text_lt : String → String → Bool
text_lt s t = is_lt (compare s t)

Bool-cases : (b : Bool) → (b ≡ true) ⊎ (b ≡ false)
Bool-cases true = inl refl
Bool-cases false = inr refl

unfoldable pub String_discrete : Discrete String
unfolding Bool-cases
String_discrete s t = elim (Bool-cases (s == t)) [
  | inl e ↦ yes ((eq_iff s t).0 e)
  | inr e ↦ no (λ p. absurd (differ e p))
]
  where
    differ : (s == t) ≡ false → s ≡ t → ⊥
    differ e p = let h : (s == t) ≡ true = (eq_iff s t).1 p in cc

pub text_lt_irrefl : (s : String) → text_lt s s ≡ false
text_lt_irrefl s = rw (compare_refl s, text_lt)

text_lt-cons :
    (c d : Char) (s t : String)
    → text_lt (String.◌∷◌ c s) (String.◌∷◌ d t)
      ≡ is_lt (then (compare_ℕ (code c) (code d)) (compare s t))
text_lt-cons c d s t = ap is_lt (clause.cons-cons c d s t)

text_lt_nil : (s : String) → text_lt s String.[] ≡ false
text_lt_nil String.[] = ap is_lt clause.nil-nil
text_lt_nil (String.◌∷◌ c s) = ap is_lt (clause.cons-nil c s)

pub text_lt_trans : (s t u : String) → text_lt s t ≡ true → text_lt t u ≡ true → text_lt s u ≡ true
text_lt_trans s String.[] u h k = cc (text_lt_nil s)
text_lt_trans String.[] (String.◌∷◌ d t) String.[] h k = cc (text_lt_nil (String.◌∷◌ d t))
text_lt_trans String.[] (String.◌∷◌ d t) (String.◌∷◌ e u) h k = ap is_lt (clause.nil-cons e u)
text_lt_trans (String.◌∷◌ c s) (String.◌∷◌ d t) String.[] h k = cc (text_lt_nil (String.◌∷◌ d t))
text_lt_trans (String.◌∷◌ c s) (String.◌∷◌ d t) (String.◌∷◌ e u) h k =
    ground
      (arith, text_lt-cons c d s t, text_lt-cons d e t u, text_lt-cons c e s u, text_lt_trans s t u)

pub text_lt_total : (s t : String) → s ≢ t → text_lt s t ≡ false → text_lt t s ≡ true
text_lt_total String.[] String.[] n h = absurd (n refl)
text_lt_total String.[] (String.◌∷◌ d t) n h = cc (ap is_lt (clause.nil-cons d t))
text_lt_total (String.◌∷◌ c s) String.[] n h = ap is_lt (clause.nil-cons c s)
text_lt_total (String.◌∷◌ c s) (String.◌∷◌ d t) n h = elim (String_discrete s t) [
  | yes e ↦ ground (
    arith,
    text_lt-cons c d s t,
    text_lt-cons d c t s,
    λ (p : code c ≡ code d). n (ap₂ String.◌∷◌ (Char-path c d p) e),
  )
  | no e ↦ ground (arith, text_lt-cons c d s t, text_lt-cons d c t s, text_lt_total s t e)
]

-- `s == t`
abbrev pub text_eq : String → String → Bool
text_eq s t = ite (String_discrete s t) true false
