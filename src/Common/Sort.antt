-- ===== src/Common/Sort.antt =====
-- `sort.Slice` over elements that have different keys, with `<` on their keys as the order. The
-- sort is by insertion; `ascending_unique` makes any other one return the same list.
use mathlib.Core.Path.{◌≡◌, refl, sym, ap₂, ◌∙◌}
use mathlib.Core.Logic.{◌≢◌, inl, inr}
use mathlib.Core.Bool.{true}
use mathlib.Core.Option.{none, some}
use mathlib.Core.List.{List, [], ◌∷◌}
use native.Mathlib.Omega.{arith}
use stockflow_erp_mock.Common.Tests.{if◌then◌else◌, Bool-cases, Option-cases}
use stockflow_erp_mock.Common.Text.{
  Text, text_eq, text_eq_iff, text_eq_refl, text_lt, text_lt_irrefl, text_lt_trans, text_lt_total,
}
use stockflow_erp_mock.Common.Dict.{Dict, lookup, HasUniqueKeys}

-- The values of a map, in the order in which `range` happens to visit them.
abbrev pub values {ℓ} : {V : Type ℓ} → Dict V → List V
values [] = []
values ((_, v) ∷ m) = v ∷ values m

module _ {ℓ} {V : Type ℓ} (key : V → Text) where
  unfoldable pub put_in_order : V → List V → List V
  put_in_order v [] = v ∷ []
  put_in_order v (w ∷ ws) = if text_lt (key v) (key w) then v ∷ w ∷ ws else w ∷ put_in_order v ws

  unfoldable pub sort_slice : List V → List V
  unfolding put_in_order
  sort_slice [] = []
  sort_slice (v ∷ vs) = put_in_order v (sort_slice vs)

  -- A list as a map from the keys of its elements.
  abbrev pub index : List V → Dict V
  index [] = []
  index (v ∷ vs) = (key v, v) ∷ index vs

  -- A key is below that of the first element.
  abbrev pub IsBelow : Text → List V → Type 0
  IsBelow k [] = Unit
  IsBelow k (v ∷ vs) = text_lt k (key v) ≡ true

  abbrev pub IsAscending : List V → Type 0
  IsAscending [] = Unit
  IsAscending (v ∷ vs) = IsBelow (key v) vs × IsAscending vs

  lookup-put_in_order :
      (k : Text) (v : V) (vs : List V)
      → lookup (key v) (index vs) ≡ none
      → lookup k (index (put_in_order v vs))
        ≡ (if text_eq (key v) k then some v else lookup k (index vs))
  unfolding lookup put_in_order
  lookup-put_in_order k v [] h = refl
  lookup-put_in_order k v (w ∷ ws) h = ground (
    arith,
    text_eq_iff (key v) k,
    text_eq_iff (key w) k,
    text_eq_iff (key w) (key v),
    lookup-put_in_order k v ws,
  )

  IsBelow-put_in_order :
      (k : Text) (v : V) (vs : List V)
      → text_lt k (key v) ≡ true
      → IsBelow k vs
      → IsBelow k (put_in_order v vs)
  unfolding put_in_order
  IsBelow-put_in_order k v [] h b = h
  IsBelow-put_in_order k v (w ∷ ws) h b = elim (Bool-cases (text_lt (key v) (key w))) [
    | inl e ↦ rw e h
    | inr e ↦ rw e b
  ]

  put_in_order-IsAscending :
      (v : V) (vs : List V)
      → lookup (key v) (index vs) ≡ none
      → IsAscending vs
      → IsAscending (put_in_order v vs)
  unfolding lookup put_in_order
  put_in_order-IsAscending v [] h s = (tt, tt)
  put_in_order-IsAscending v (w ∷ ws) h s = elim (Bool-cases (text_lt (key v) (key w))) [
    | inl e ↦ rw e (e, s)
    | inr e ↦
        let other : key v ≢ key w = λ same. ground (arith, text_eq_iff (key w) (key v)) in
        let rest : lookup (key v) (index ws) ≡ none = ground (arith, text_eq_iff (key w) (key v)) in
        rw e (
          IsBelow-put_in_order (key w) v ws (text_lt_total (key v) (key w) other e) s.0,
          put_in_order-IsAscending v ws rest s.1,
        )
  ]

  -- Each value of the map stands under its own key.
  abbrev pub IsKeyed : Dict V → Type ℓ
  IsKeyed m = (k : Text) (v : V) → lookup k m ≡ some v → key v ≡ k

  IsKeyed-tail :
      (j : Text) (v : V) (m : Dict V) → lookup j m ≡ none → IsKeyed ((j, v) ∷ m) → IsKeyed m
  unfolding lookup
  IsKeyed-tail j v m fresh keyed k w h = keyed k w (ground (arith, text_eq_iff j k))

  -- What the sorted values of a map list under a key is what the map holds there.
  pub lookup-sort_slice :
      (k : Text) (m : Dict V)
      → HasUniqueKeys m
      → IsKeyed m
      → lookup k (index (sort_slice (values m))) ≡ lookup k m
  unfolding lookup sort_slice
  lookup-sort_slice k [] unique keyed = refl
  lookup-sort_slice k ((j, v) ∷ m) unique keyed =
      let own : key v ≡ j = keyed j v (rw text_eq_refl refl) in
      let tail = IsKeyed-tail j v m unique.0 keyed in
      let fresh : lookup (key v) (index (sort_slice (values m))) ≡ none =
        lookup-sort_slice (key v) m unique.1 tail ∙ rw own unique.0 in
      lookup-put_in_order k v (sort_slice (values m)) fresh
      ∙ rw (own, lookup-sort_slice k m unique.1 tail) refl

  pub sort_slice-IsAscending :
      (m : Dict V) → HasUniqueKeys m → IsKeyed m → IsAscending (sort_slice (values m))
  unfolding lookup sort_slice
  sort_slice-IsAscending [] unique keyed = tt
  sort_slice-IsAscending ((j, v) ∷ m) unique keyed =
      let own : key v ≡ j = keyed j v (rw text_eq_refl refl) in
      let tail = IsKeyed-tail j v m unique.0 keyed in
      put_in_order-IsAscending v (sort_slice (values m))
        (lookup-sort_slice (key v) m unique.1 tail ∙ rw own unique.0)
        (sort_slice-IsAscending m unique.1 tail)

  above_head :
      (k : Text) (vs : List V) (j : Text) {w : V}
      → IsBelow j vs
      → IsAscending vs
      → lookup k (index vs) ≡ some w
      → text_lt j k ≡ true
  unfolding lookup
  above_head k [] j b s h = cc
  above_head k (v ∷ vs) j {w = w} b s h = elim (Bool-cases (text_eq (key v) k)) [
    | inl e ↦ rw (← (text_eq_iff (key v) k).0 e) b
    | inr e ↦ text_lt_trans j (key v) k b (above_head k vs (key v) {w = w} s.0 s.1 (ground arith))
  ]

  absent_below :
      (k : Text) (vs : List V) → IsBelow k vs → IsAscending vs → lookup k (index vs) ≡ none
  absent_below k vs b s = elim (Option-cases (lookup k (index vs))) [
    | inl e ↦ e
    | inr (w, e) ↦ absurd (cc (sym (text_lt_irrefl k) ∙ above_head k vs k {w = w} b s e))
  ]

  -- Two heads with the same lookups in both lists are one.
  heads :
      (v w : V) (vs ws : List V)
      → IsAscending (v ∷ vs)
      → IsAscending (w ∷ ws)
      → ((k : Text) → lookup k (index (v ∷ vs)) ≡ lookup k (index (w ∷ ws)))
      → v ≡ w
  unfolding lookup
  heads v w vs ws s t same = elim (Bool-cases (text_eq (key w) (key v))) [
    | inl e ↦ ground (arith, same (key v), text_eq_refl (key v))
    | inr e ↦
        let in_ws : lookup (key v) (index ws) ≡ some v =
          ground (arith, same (key v), text_eq_refl (key v)) in
        let in_vs : lookup (key w) (index vs) ≡ some w = ground (
          arith,
          same (key w),
          text_eq_refl (key w),
          text_eq_iff (key v) (key w),
          text_eq_iff (key w) (key v),
        ) in
        let cycle =
          text_lt_trans (key v) (key w) (key v) (above_head (key w) vs (key v) s.0 s.1 in_vs)
            (above_head (key v) ws (key w) t.0 t.1 in_ws) in
        absurd (cc (sym (text_lt_irrefl (key v)) ∙ cycle))
  ]

  tails :
      (v : V) (vs ws : List V)
      → IsAscending (v ∷ vs)
      → IsAscending (v ∷ ws)
      → ((k : Text) → lookup k (index (v ∷ vs)) ≡ lookup k (index (v ∷ ws)))
      → (k : Text) → lookup k (index vs) ≡ lookup k (index ws)
  unfolding lookup
  tails v vs ws s t same k = elim (Bool-cases (text_eq (key v) k)) [
    | inl e ↦
        rw (← (text_eq_iff (key v) k).0 e)
          (absent_below (key v) vs s.0 s.1 ∙ sym (absent_below (key v) ws t.0 t.1))
    | inr e ↦ ground (arith, same k)
  ]

  -- Ascending lists that list the same values under the same keys are equal.
  pub ascending_unique :
      (vs ws : List V)
      → IsAscending vs
      → IsAscending ws
      → ((k : Text) → lookup k (index vs) ≡ lookup k (index ws))
      → vs ≡ ws
  unfolding lookup
  ascending_unique [] [] s t same = refl
  ascending_unique [] (w ∷ ws) s t same =
      absurd (ground (arith, same (key w), text_eq_refl (key w)))
  ascending_unique (v ∷ vs) [] s t same =
      absurd (ground (arith, same (key v), text_eq_refl (key v)))
  ascending_unique (v ∷ vs) (w ∷ ws) s t same =
      let e : v ≡ w = heads v w vs ws s t same in
      let t' : IsAscending (v ∷ ws) = rw e t in
      let same' : (k : Text) → lookup k (index (v ∷ vs)) ≡ lookup k (index (v ∷ ws)) =
        λ k. same k ∙ rw e refl in
      ap₂ ◌∷◌ e (ascending_unique vs ws s.1 t'.1 (tails v vs ws s t' same'))
