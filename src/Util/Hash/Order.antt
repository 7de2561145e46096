-- ===== src/Util/Hash/Order.antt =====
-- The order of the keys is total.
use Prim.Native.Nat.{Ordering, compare as compare_ℕ}
use Prim.Native.String
use Prim.Native.String.compare
use Prim.Native.String.{compare}
use text.Mathlib.TextEquality.{codes_equal}
use reloader_operator.Base.{
  ℕ, String, Char, code, Bool, true, false, ◌≡◌, ◌⊎◌, ◌∙◌, ap, sym, refl, if◌then◌else◌, ltb,
  nat_eq, arith, inl, inr,
}
use reloader_operator.Util.Hash.{text_leb}

-- The order by the codes of the characters.
not_above : String → String → Bool
not_above String.[] t = true
not_above (String.◌∷◌ c s) String.[] = false
not_above (String.◌∷◌ c s) (String.◌∷◌ d t) =
    let rest = not_above s t in
    if ltb (code c) (code d) then true else if nat_eq (code c) (code d) then rest else false

abbrev is_not_gt : Ordering → Bool
is_not_gt Ordering.gt = false
is_not_gt _ = true

then_not_gt :
    (m n : ℕ) (o : Ordering)
    → is_not_gt ((String.then) (compare_ℕ m n) o)
      ≡ (if ltb m n then true else if nat_eq m n then is_not_gt o else false)
then_not_gt m n o =
    elim (compare_ℕ m n)
      as (λ x. is_not_gt ((String.then) x o) ≡ (
        if (elim x as (λ _. Bool) [ Ordering.lt ↦ true | _ ↦ false ])
        then true
        else if (elim x as (λ _. Bool) [ Ordering.eq ↦ true | _ ↦ false ])
        then is_not_gt o
        else false)) [ Ordering.lt ↦ refl | Ordering.eq ↦ refl | Ordering.gt ↦ refl ]

text_leb-not_above : (s t : String) → text_leb s t ≡ not_above s t
unfolding not_above
text_leb-not_above String.[] String.[] = refl
text_leb-not_above String.[] (String.◌∷◌ d t) = ap is_not_gt (compare.nil-cons d t)
text_leb-not_above (String.◌∷◌ c s) String.[] = ap is_not_gt (compare.cons-nil c s)
text_leb-not_above (String.◌∷◌ c s) (String.◌∷◌ d t) =
    ap is_not_gt (compare.cons-cons c d s t)
    ∙ (then_not_gt (code c) (code d) (compare s t)
        ∙ ap
            (λ b.
              if ltb (code c) (code d) then true else if nat_eq (code c) (code d) then b else false)
            (text_leb-not_above s t))

not_above_total : (s t : String) → (not_above s t ≡ true) ⊎ (not_above t s ≡ true)
unfolding not_above
not_above_total String.[] t = inl refl
not_above_total (String.◌∷◌ c s) String.[] = inr refl
not_above_total (String.◌∷◌ c s) (String.◌∷◌ d t) = ground (arith, not_above_total s t)

not_above_trans :
    (s t u : String) → not_above s t ≡ true → not_above t u ≡ true → not_above s u ≡ true
unfolding not_above
not_above_trans String.[] t u h k = refl
not_above_trans (String.◌∷◌ c s) String.[] u h k = absurd (ground arith)
not_above_trans (String.◌∷◌ c s) (String.◌∷◌ d t) String.[] h k = absurd (ground arith)
not_above_trans (String.◌∷◌ c s) (String.◌∷◌ d t) (String.◌∷◌ e u) h k =
    ground (arith, not_above_trans s t u)

same_code : (c d : Char) → code c ≡ code d → c ≡ d
same_code c d h = codes_equal c d (rw h (compare_same (code d)))
  where
    compare_same : (n : ℕ) → compare_ℕ n n ≡ Ordering.eq
    compare_same n = ground arith

not_above_antisym : (s t : String) → not_above s t ≡ true → not_above t s ≡ true → s ≡ t
unfolding not_above
not_above_antisym String.[] String.[] h k = refl
not_above_antisym String.[] (String.◌∷◌ d t) h k = absurd (ground arith)
not_above_antisym (String.◌∷◌ c s) String.[] h k = absurd (ground arith)
not_above_antisym (String.◌∷◌ c s) (String.◌∷◌ d t) h k =
    let same : code c ≡ code d = ground arith in
    let rest : s ≡ t = not_above_antisym s t (ground arith) (ground arith) in
    λ i. String.◌∷◌ (same_code c d same i) (rest i)

pub text_leb_total : (s t : String) → (text_leb s t ≡ true) ⊎ (text_leb t s ≡ true)
text_leb_total s t = rw (text_leb-not_above s t, text_leb-not_above t s) (not_above_total s t)

pub text_leb_trans :
    (s t u : String) → text_leb s t ≡ true → text_leb t u ≡ true → text_leb s u ≡ true
text_leb_trans s t u h k =
    text_leb-not_above s u
    ∙ not_above_trans s t u (sym (text_leb-not_above s t) ∙ h) (sym (text_leb-not_above t u) ∙ k)

pub text_leb_antisym : (s t : String) → text_leb s t ≡ true → text_leb t s ≡ true → s ≡ t
text_leb_antisym s t h k =
    not_above_antisym s t (sym (text_leb-not_above s t) ∙ h) (sym (text_leb-not_above t s) ∙ k)
