-- ===== src/Util/Keys/RoundTrip.antt =====
-- The key that is made of three parts parses back to them.
use Prim.Native.String
use text.Mathlib.TextLemmas
use reloader_operator.Base.{
  String, Char, ℕ, code, Bool, true, false, [], ◌∷◌, ◌≡◌, ◌∙◌, ap, sym, refl, arith, nat_eq,
  if◌then◌else◌,
}
use reloader_operator.Kube.{ok}
use reloader_operator.Util.Keys.{split_from, split, make_resource_key, parse_resource_key}

-- Does the text have the character?
unfoldable pub has_char : Char → String → Bool
has_char sep String.[] = false
has_char sep (String.◌∷◌ c s) = if nat_eq (code c) (code sep) then true else has_char sep s

nat_eq_refl : (n : ℕ) → nat_eq n n ≡ true
nat_eq_refl n = ground arith

module _ (sep : Char) where
  -- A character that is no separator goes to the part that is being read.
  split_from-step :
      (cur s : String) (c : Char)
      → nat_eq (code c) (code sep) ≡ false
      → split_from sep cur (String.◌∷◌ c s)
        ≡ split_from sep (String.◌++◌ cur (String.◌∷◌ c String.[])) s
  unfolding split_from
  split_from-step cur s c e = rw e refl

  split_from-sep :
      (cur s : String) → split_from sep cur (String.◌∷◌ sep s) ≡ cur ∷ split_from sep "" s
  unfolding split_from
  split_from-sep cur s = rw (nat_eq_refl (code sep)) refl

  shift :
      (cur s : String) (c : Char)
      → String.◌++◌ (String.◌++◌ cur (String.◌∷◌ c String.[])) s ≡ String.◌++◌ cur (String.◌∷◌ c s)
  shift cur s c =
      TextLemmas.append_assoc cur (String.◌∷◌ c String.[]) s
      ∙ ap (String.◌++◌ cur)
          (TextLemmas.cons-append c String.[] s ∙ ap (String.◌∷◌ c) (TextLemmas.nil-append s))

  has_char-tail :
      (c : Char) (s : String)
      → has_char sep (String.◌∷◌ c s) ≡ false
      → (nat_eq (code c) (code sep) ≡ false) × (has_char sep s ≡ false)
  unfolding has_char
  has_char-tail c s h = ground arith

  split_from-last :
      (cur s : String) → has_char sep s ≡ false → split_from sep cur s ≡ String.◌++◌ cur s ∷ []
  unfolding split_from
  split_from-last cur String.[] h = ap (λ x. x ∷ []) (sym (TextLemmas.append-nil cur))
  split_from-last cur (String.◌∷◌ c s) h =
      let (e, h') = has_char-tail c s h in
      split_from-step cur s c e
      ∙ split_from-last (String.◌++◌ cur (String.◌∷◌ c String.[])) s h'
      ∙ ap (λ x. x ∷ []) (shift cur s c)

  split_from-part :
      (cur s t : String)
      → has_char sep s ≡ false
      → split_from sep cur (String.◌++◌ s (String.◌∷◌ sep t))
        ≡ String.◌++◌ cur s ∷ split_from sep "" t
  split_from-part cur String.[] t h =
      ap (split_from sep cur) (TextLemmas.nil-append (String.◌∷◌ sep t))
      ∙ split_from-sep cur t
      ∙ ap (λ x. x ∷ split_from sep "" t) (sym (TextLemmas.append-nil cur))
  split_from-part cur (String.◌∷◌ c s) t h =
      let (e, h') = has_char-tail c s h in
      ap (split_from sep cur) (TextLemmas.cons-append c s (String.◌∷◌ sep t))
      ∙ split_from-step cur (String.◌++◌ s (String.◌∷◌ sep t)) c e
      ∙ split_from-part (String.◌++◌ cur (String.◌∷◌ c String.[])) s t h'
      ∙ ap (λ x. x ∷ split_from sep "" t) (shift cur s c)

  pub split-part :
      (s t : String)
      → has_char sep s ≡ false
      → split (String.◌++◌ s (String.◌∷◌ sep t)) sep ≡ s ∷ split t sep
  unfolding split
  split-part s t h =
      split_from-part "" s t h ∙ ap (λ x. x ∷ split_from sep "" t) (TextLemmas.nil-append s)

  pub split-last : (s : String) → has_char sep s ≡ false → split s sep ≡ s ∷ []
  unfolding split
  split-last s h = split_from-last "" s h ∙ ap (λ x. x ∷ []) (TextLemmas.nil-append s)

key_text :
    (namespace kind name : String)
    → make_resource_key namespace kind name
      ≡ String.◌++◌ namespace (String.◌∷◌ "/" (String.◌++◌ kind (String.◌∷◌ "/" name)))
unfolding make_resource_key
key_text namespace kind name =
    let one : (t : String) → String.◌++◌ "/" t ≡ String.◌∷◌ "/" t =
      λ t. TextLemmas.cons-append "/" String.[] t ∙ ap (String.◌∷◌ "/") (TextLemmas.nil-append t) in
    rw (one _, one _, TextLemmas.append-nil name) refl

-- A key parses back to the namespace, the kind and the name that it was made of, if none of the three
-- has a slash, as no name in Kubernetes has.
pub parse-make_resource_key :
    (namespace kind name : String)
    → has_char "/" namespace ≡ false
    → has_char "/" kind ≡ false
    → has_char "/" name ≡ false
    → parse_resource_key (make_resource_key namespace kind name) ≡ ok (namespace, kind, name)
unfolding parse_resource_key
parse-make_resource_key namespace kind name a b c =
    rw
      (
        key_text namespace kind name,
        split-part "/" namespace (String.◌++◌ kind (String.◌∷◌ "/" name)) a,
        split-part "/" kind name b,
        split-last "/" name c,
      )
      refl
