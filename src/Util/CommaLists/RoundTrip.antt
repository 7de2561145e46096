-- ===== src/Util/CommaLists/RoundTrip.antt =====
-- A list that is joined by commas parses back.
use Prim.Native.String
use text.Mathlib.TextLemmas
use reloader_operator.Base.{
  String, false, List, [], ◌∷◌, ◌≡◌, ◌≢◌, ◌∙◌, ap, refl, ◌==◌, arith, eq_iff, All, join,
}
use reloader_operator.Util.Keys.{split}
use reloader_operator.Util.Keys.RoundTrip.{has_char, split-part, split-last}
use reloader_operator.Util.CommaLists.{trim_space, trimmed_parts, parse_comma_separated_list}

-- An item that the list can hold: it has no comma, no space at its ends, and is not empty.
abbrev pub IsItem : String → Type 0
IsItem s = (has_char "," s ≡ false) × (trim_space s ≡ s) × (s ≢ "")

split-join :
    (s : String) (items : List String)
    → All IsItem (s ∷ items)
    → split (join "," (s ∷ items)) "," ≡ s ∷ items
split-join s [] ((c, t, n), _) = split-last "," s c
split-join s (t ∷ items) ((c, _, _), all) =
    ap (λ x. split (String.◌++◌ s x) ",")
      (TextLemmas.cons-append "," String.[] (join "," (t ∷ items))
        ∙ ap (String.◌∷◌ ",") (TextLemmas.nil-append (join "," (t ∷ items))))
    ∙ (split-part "," s (join "," (t ∷ items)) c ∙ ap (λ x. s ∷ x) (split-join t items all))

trimmed_parts-items : (items : List String) → All IsItem items → trimmed_parts items ≡ items
unfolding trimmed_parts
trimmed_parts-items [] all = refl
trimmed_parts-items (s ∷ items) ((c, t, n), all) =
    rw (t, trimmed_parts-items items all) (ground (arith, eq_iff s ""))

append-ne-nil : (s t : String) → s ≢ "" → String.◌++◌ s t ≢ ""
append-ne-nil s t n e = n ((TextLemmas.append-eq-nil_iff {p = s} {q = t}).0 e).0

join-ne-nil : (s : String) (items : List String) → s ≢ "" → join "," (s ∷ items) ≢ ""
join-ne-nil s [] n = n
join-ne-nil s (t ∷ items) n = append-ne-nil s _ n

-- A list of items that are not empty, have no commas and no spaces at their ends, joined by commas,
-- parses back to itself.
pub parse-join :
    (items : List String) → All IsItem items → parse_comma_separated_list (join "," items) ≡ items
unfolding parse_comma_separated_list
parse-join [] all = refl
parse-join (s ∷ items) all =
    let full : (join "," (s ∷ items) == "") ≡ false =
      ground (arith, eq_iff (join "," (s ∷ items)) "", join-ne-nil s items all.0.2) in
    rw full (ap trimmed_parts (split-join s items all) ∙ trimmed_parts-items (s ∷ items) all)
