-- ===== src/Util/Hash/Shuffled.antt =====
-- The hash does not depend on the order in which a map is met.
use mathlib.Core.List.{Permᴰ, Perm}
use mathlib.Core.Logic.{∥∥₁_elim}
use std.HLevel.{prop→set}
use Prim.Native.Char.{IsScalar}
use text.Mathlib.TextEquality.{IsScalar-prop}
use reloader_operator.Base.{
  Distinct, ℕ, String, Bool, true, false, some, List, [], ◌∷◌, ◌++◌, map, ◌≡◌, ◌∙◌, ap, sym, refl,
  if◌then◌else◌, arith, eq_iff, lookup, lookup-cons, subst,
}
use reloader_operator.Kube.{Bytes}
use reloader_operator.Util.Hash.{
  bytes, insert_sorted, sort_strings, value_of, write_pairs, hash_pairs, calculate_hash,
}
use reloader_operator.Util.Hash.Order.{text_leb_total, text_leb_trans, text_leb_antisym}

insert_comm :
    (a b : String) (ks : List String)
    → insert_sorted a (insert_sorted b ks) ≡ insert_sorted b (insert_sorted a ks)
unfolding insert_sorted
insert_comm a b [] = ground (arith, text_leb_total a b, text_leb_antisym a b)
insert_comm a b (k ∷ ks) = ground (
  arith,
  text_leb_total a b,
  text_leb_antisym a b,
  text_leb_trans a b k,
  text_leb_trans b a k,
  insert_comm a b ks,
)

module _ {V : Type 0} where
  abbrev keys : List (String × V) → List String
  keys = map (λ p. p.0)

  sort_shuffled :
      (ps qs : List (String × V)) → Permᴰ ps qs → sort_strings (keys ps) ≡ sort_strings (keys qs)
  unfolding sort_strings
  sort_shuffled _ _ Permᴰ.nil = refl
  sort_shuffled _ _ (Permᴰ.cons {l₁ = l} {l₂ = m} e h) =
      λ i. insert_sorted ((e i).0) (sort_shuffled l m h i)
  sort_shuffled _ _ (Permᴰ.swap {a = x} {b = y} {a' = x'} {b' = y'} {l = l} e f) =
      (λ i. insert_sorted ((e i).0) (insert_sorted ((f i).0) (sort_strings (keys l))))
      ∙ insert_comm y'.0 x'.0 (sort_strings (keys l))
  sort_shuffled _ _ (Permᴰ.trans {l₁ = l₁} {l₂ = l₂} {l₃ = l₃} h k) =
      sort_shuffled l₁ l₂ h ∙ sort_shuffled l₂ l₃ k

  -- Two lists of pairs that read the same at every key, the second with distinct keys.
  record ReadsAs (ps qs : List (String × V)) : Type 0 where
    same : (key : String) → lookup key (some ps) ≡ lookup key (some qs)
    distinct : Distinct qs

  ReadsAs-cons :
      (p : String × V) (l m : List (String × V))
      → ReadsAs l m
      → Distinct (p ∷ l)
      → ReadsAs (p ∷ l) (p ∷ m)
  ReadsAs-cons (k, v) l m r (d, ds) = record {
    same = λ key. rw (lookup-cons k key v l, lookup-cons k key v m, r.same key) refl;
    distinct = (sym (r.same k) ∙ d, r.distinct);
  }

  ReadsAs-swap :
      (p q : String × V) (l : List (String × V))
      → Distinct (p ∷ q ∷ l)
      → ReadsAs (p ∷ q ∷ l) (q ∷ p ∷ l)
  ReadsAs-swap (k, v) (j, w) l (d, (ds, dl)) = record {
    same = λ key.
        rw
          (
            lookup-cons k key v ((j, w) ∷ l),
            lookup-cons j key w l,
            lookup-cons j key w ((k, v) ∷ l),
            lookup-cons k key v l,
          )
          (ground (arith, lookup-cons j k w l, eq_iff k key, eq_iff j key, eq_iff j k));
    distinct = (
      lookup-cons k j v l ∙ ground (arith, lookup-cons j k w l, eq_iff k j, eq_iff j k),
      (ground (arith, lookup-cons j k w l), dl),
    );
  }

  Distinct-tail : (p : String × V) (l : List (String × V)) → Distinct (p ∷ l) → Distinct l
  Distinct-tail (k, v) l (d, ds) = ds

  ReadsAs-shuffled : (ps qs : List (String × V)) → Permᴰ ps qs → Distinct ps → ReadsAs ps qs
  ReadsAs-shuffled _ _ Permᴰ.nil d = record { same = λ key. refl; distinct = d }
  ReadsAs-shuffled _ _ (Permᴰ.cons {a = x} {l₁ = l} {l₂ = m} e h) d =
      subst (λ y. ReadsAs (x ∷ l) (y ∷ m)) e
        (ReadsAs-cons x l m (ReadsAs-shuffled l m h (Distinct-tail x l d)) d)
  ReadsAs-shuffled _ _ (Permᴰ.swap {a = x} {b = y} {l = l} e f) d =
      subst (λ z. ReadsAs (x ∷ y ∷ l) z) (λ i. f i ∷ e i ∷ l) (ReadsAs-swap x y l d)
  ReadsAs-shuffled _ _ (Permᴰ.trans {l₁ = l₁} {l₂ = l₂} {l₃ = l₃} h k) d =
      let first = ReadsAs-shuffled l₁ l₂ h d in
      let second = ReadsAs-shuffled l₂ l₃ k first.distinct in
      record { same = λ key. first.same key ∙ second.same key; distinct = second.distinct }

write_pairs-ReadsAs :
    (ps qs : List (String × Bytes)) (ks : List String)
    → ReadsAs ps qs
    → write_pairs (some ps) ks ≡ write_pairs (some qs) ks
unfolding write_pairs
write_pairs-ReadsAs ps qs [] r = refl
write_pairs-ReadsAs ps qs (k ∷ ks) r = λ i.
    bytes k
    ++ (bytes ":" ++ (value_of (r.same k i) ++ (bytes ";" ++ write_pairs-ReadsAs ps qs ks r i)))

hash_pairs-shuffled :
    (sha256 : Bytes → String) (ps qs : List (String × Bytes))
    → Permᴰ ps qs
    → Distinct ps
    → hash_pairs sha256 ps ≡ hash_pairs sha256 qs
unfolding hash_pairs
hash_pairs-shuffled sha256 ps qs h d =
    ap (λ ks. sha256 (write_pairs (some ps) ks)) (sort_shuffled ps qs h)
    ∙ ap sha256 (write_pairs-ReadsAs ps qs (sort_strings (keys qs)) (ReadsAs-shuffled ps qs h d))

abbrev is_empty : {V : Type 0} → List (String × V) → Bool
is_empty [] = true
is_empty _ = false

is_empty-shuffled :
    {V : Type 0} (ps qs : List (String × V)) → Permᴰ ps qs → is_empty ps ≡ is_empty qs
is_empty-shuffled _ _ Permᴰ.nil = refl
is_empty-shuffled _ _ (Permᴰ.cons e h) = refl
is_empty-shuffled _ _ (Permᴰ.swap e f) = refl
is_empty-shuffled _ _ (Permᴰ.trans {l₁ = l₁} {l₂ = l₂} {l₃ = l₃} h k) =
    is_empty-shuffled l₁ l₂ h ∙ is_empty-shuffled l₂ l₃ k

calculate_hash-pairs :
    (sha256 : Bytes → String) (ps : List (String × Bytes))
    → calculate_hash sha256 (some ps) ≡ (if is_empty ps then "" else hash_pairs sha256 ps)
unfolding calculate_hash
calculate_hash-pairs sha256 [] = refl
calculate_hash-pairs sha256 (p ∷ ps) = refl

calculate_hash-shuffled :
    (sha256 : Bytes → String) (ps qs : List (String × Bytes))
    → Distinct ps
    → Permᴰ ps qs
    → calculate_hash sha256 (some ps) ≡ calculate_hash sha256 (some qs)
calculate_hash-shuffled sha256 ps qs d shuffle =
    calculate_hash-pairs sha256 ps
    ∙ (λ i.
        if is_empty-shuffled ps qs shuffle i
        then ""
        else hash_pairs-shuffled sha256 ps qs shuffle d i)
    ∙ sym (calculate_hash-pairs sha256 qs)

IsScalar-IsSet : (n : ℕ) → IsSet (IsScalar n)
IsScalar-IsSet n = prop→set (IsScalar-prop n)

-- Go meets the pairs of a map in any order. The hash of data with distinct keys is the same for every
-- order of its pairs, whatever the hash function is.
pub calculate_hash-order_free :
    (sha256 : Bytes → String) (ps qs : List (String × Bytes))
    → Perm ps qs
    → Distinct ps
    → calculate_hash sha256 (some ps) ≡ calculate_hash sha256 (some qs)
calculate_hash-order_free sha256 ps qs h d =
    ∥∥₁_elim h (hlevel IsScalar-IsSet) (calculate_hash-shuffled sha256 ps qs d)
