-- ===== src/Common/Text.antt =====
-- Go strings as their code points, and `strings.TrimSpace`.
use Prim.Native.Char.{code}
use Prim.Native.Nat.{ℕ}
use Prim.Native.String.{String}
use mathlib.Core.Path.{◌≡◌, refl, ap₂}
use mathlib.Core.Logic.{◌≢◌, ◌↔◌, ◌⊎◌, inl, inr}
use mathlib.Core.Bool.{Bool, true, false, ◌&&◌, ◌||◌}
use mathlib.Core.List.{List, [], ◌∷◌}
use native.Mathlib.Omega.{arith}
use stockflow_erp_mock.Common.Tests.{leb, ltb, ◌==◌, is_empty, if◌then◌else◌, Bool-cases, ==_iff}

abbrev pub Text : Type 0
Text = List ℕ

abbrev pub text : String → Text
text String.[] = []
text (String.◌∷◌ c s) = code c ∷ text s

-- `unicode.IsSpace`
unfoldable pub is_space : ℕ → Bool
is_space c =
    (leb 9 c && leb c 13)
    || (c == 32
        || (c == 0x85
            || (c == 0xa0
                || (c == 0x1680
                    || ((leb 0x2000 c && leb c 0x200a)
                        || (c == 0x2028
                            || (c == 0x2029 || (c == 0x202f || (c == 0x205f || c == 0x3000)))))))))

unfoldable pub trim_left : Text → Text
trim_left [] = []
trim_left (c ∷ s) = if is_space c then trim_left s else c ∷ s

unfoldable pub trim_right : Text → Text
trim_right [] = []
trim_right (c ∷ s) = let rest = trim_right s in if is_empty rest && is_space c then [] else c ∷ rest

unfoldable pub trim_space : Text → Text
trim_space s = trim_right (trim_left s)

-- What is left begins with a character that is no space, or is empty.
trim_left-cases :
    (s : Text)
    → (trim_left s ≡ []) ⊎ ((c : ℕ) × (t : Text) × (trim_left s ≡ c ∷ t) × (is_space c ≡ false))
unfolding trim_left
trim_left-cases [] = inl refl
trim_left-cases (c ∷ s) = elim (Bool-cases (is_space c)) [
  | inl e ↦ elim (trim_left-cases s) [
    | inl h ↦ inl (ground arith)
    | inr (d, t, h, k) ↦ inr (d, t, ground arith, k)
  ]
  | inr e ↦ inr (c, s, ground arith, e)
]

trim_right_idem : (s : Text) → trim_right (trim_right s) ≡ trim_right s
unfolding trim_right
trim_right_idem [] = refl
trim_right_idem (c ∷ s) = ground (arith, trim_right_idem s)

trim_right-cons : (c : ℕ) (s : Text) → is_space c ≡ false → trim_right (c ∷ s) ≡ c ∷ trim_right s
unfolding trim_right
trim_right-cons c s h = ground arith

trim_left-cons : (c : ℕ) (s : Text) → is_space c ≡ false → trim_left (c ∷ s) ≡ c ∷ s
unfolding trim_left
trim_left-cons c s h = ground arith

pub trim_space_idem : (s : Text) → trim_space (trim_space s) ≡ trim_space s
unfolding trim_space
trim_space_idem s = elim (trim_left-cases s) [
  | inl e ↦ rw e (unfold trim_left trim_right in refl)
  | inr (c, t, e, h) ↦ simp (
    e,
    trim_right-cons c t h,
    trim_left-cons c (trim_right t) h,
    trim_right-cons c (trim_right t) h,
    trim_right_idem t,
  )
]

-- `a == b` on strings.
unfoldable pub text_eq : Text → Text → Bool
text_eq [] [] = true
text_eq (a ∷ s) (b ∷ t) = a == b && text_eq s t
text_eq _ _ = false

pub text_eq_iff : (s t : Text) → (text_eq s t ≡ true) ↔ (s ≡ t)
unfolding text_eq
text_eq_iff [] [] = ground arith
text_eq_iff [] (b ∷ t) = ground arith
text_eq_iff (a ∷ s) [] = ground arith
text_eq_iff (a ∷ s) (b ∷ t) = ground (arith, text_eq_iff s t, ==_iff a b)

pub text_eq_refl : (s : Text) → text_eq s s ≡ true
text_eq_refl s = (text_eq_iff s s).1 refl

-- `a < b` on strings, in the order of their code points.
unfoldable pub text_lt : Text → Text → Bool
text_lt [] [] = false
text_lt [] (b ∷ t) = true
text_lt (a ∷ s) [] = false
text_lt (a ∷ s) (b ∷ t) = ltb a b || (a == b && text_lt s t)

pub text_lt_irrefl : (s : Text) → text_lt s s ≡ false
unfolding text_lt
text_lt_irrefl [] = refl
text_lt_irrefl (a ∷ s) = ground (arith, text_lt_irrefl s)

pub text_lt_trans : (s t u : Text) → text_lt s t ≡ true → text_lt t u ≡ true → text_lt s u ≡ true
unfolding text_lt
text_lt_trans [] [] u h k = cc
text_lt_trans [] (b ∷ t) [] h k = cc
text_lt_trans [] (b ∷ t) (c ∷ u) h k = refl
text_lt_trans (a ∷ s) [] u h k = cc
text_lt_trans (a ∷ s) (b ∷ t) [] h k = cc
text_lt_trans (a ∷ s) (b ∷ t) (c ∷ u) h k = ground (arith, text_lt_trans s t u)

-- Of two different strings one comes first.
pub text_lt_total : (s t : Text) → s ≢ t → text_lt s t ≡ false → text_lt t s ≡ true
unfolding text_lt
text_lt_total [] [] h k = absurd (h refl)
text_lt_total [] (b ∷ t) h k = cc
text_lt_total (a ∷ s) [] h k = refl
text_lt_total (a ∷ s) (b ∷ t) h k =
    ground (arith, text_lt_total s t, λ (e : s ≡ t) (f : a ≡ b). h (ap₂ ◌∷◌ f e))
