-- ===== src/Base/Texts.antt =====
-- Texts put together from pieces, as `fmt.Sprintf` does.
use Prim.Native.String
use Prim.Native.String.{String}
use mathlib.Core.Path.{◌≡◌, refl}
use Prim.Native.Nat.{ℕ, zero, suc, ◌/◌, ◌%◌}
use Prim.Native.Char.{Char}
use mathlib.Core.List.{List, [], ◌∷◌}
use reloader_operator.Base.Tests.{ltb, if◌then◌else◌}

abbrev pub concat : List String → String
concat [] = ""
concat (s ∷ ss) = String.◌++◌ s (concat ss)

-- The items with a text between each two, as `strings.Join` puts them.
abbrev pub join : String → List String → String
join sep [] = ""
join sep (s ∷ []) = s
join sep (s ∷ t ∷ ss) = String.◌++◌ s (String.◌++◌ sep (join sep (t ∷ ss)))

-- The character at a place of a text; behind its end, a nine.
char_at : ℕ → String → Char
char_at n String.[] = "9"
char_at zero (String.◌∷◌ c s) = c
char_at (suc n) (String.◌∷◌ c s) = char_at n s

-- The digits of a number before a text; `n` has fewer digits than the fuel.
decimal_from : ℕ → ℕ → String → String
unfolding char_at
decimal_from zero n acc = acc
decimal_from (suc fuel) n acc =
    let acc' = String.◌∷◌ (char_at (n % 10) "0123456789") acc in
    let rest = decimal_from fuel (n / 10) acc' in if ltb n 10 then acc' else rest

-- `%d`
unfoldable pub decimal : ℕ → String
unfolding decimal_from
decimal n = decimal_from (suc n) n ""

decimal_example : decimal 1047 ≡ "1047"
unfolding decimal
decimal_example = refl
