-- ===== src/Tests/Texts.antt =====
-- Lists in texts, and what is hashed.
use mathlib.Core.List.Perm
use reloader_operator.Base.{
  Distinct, String, arith, eq_iff, ◌∙◌, lookup-cons, lookup-empty, some, [], ◌∷◌, ◌≡◌, refl, All,
  join,
}
use reloader_operator.Kube.{Bytes}
use reloader_operator.Util.Keys.RoundTrip.{has_char}
use reloader_operator.Util.CommaLists.{trim_space, parse_comma_separated_list}
use reloader_operator.Util.CommaLists.RoundTrip.{IsItem, parse-join}
use reloader_operator.Util.Hash.{calculate_hash}
use reloader_operator.Util.Hash.Shuffled.{calculate_hash-order_free}
use reloader_operator.Tests.Sample.{sample_hash}

items_IsItem : All IsItem ("db" ∷ "tls" ∷ [])
unfolding has_char trim_space
items_IsItem = (
  (refl, refl, λ e. ground (arith, eq_iff "db" "")),
  ((refl, refl, λ e. ground (arith, eq_iff "tls" "")), tt),
)

parse-join_example : parse_comma_separated_list (join "," ("db" ∷ "tls" ∷ [])) ≡ "db" ∷ "tls" ∷ []
parse-join_example = parse-join ("db" ∷ "tls" ∷ []) items_IsItem

abbrev user : String × Bytes
user = ("user", 97 ∷ [])

abbrev password : String × Bytes
password = ("password", 115 ∷ [])

user-password-Distinct : Distinct (user ∷ password ∷ [])
user-password-Distinct = (
  lookup-cons {V = Bytes} "password" "user" (115 ∷ []) [] ∙ lookup-empty {V = Bytes} "user",
  (lookup-empty {V = Bytes} "password", tt),
)

calculate_hash-order_free_example :
    calculate_hash sample_hash (some (user ∷ password ∷ []))
    ≡ calculate_hash sample_hash (some (password ∷ user ∷ []))
calculate_hash-order_free_example =
    calculate_hash-order_free sample_hash (user ∷ password ∷ []) (password ∷ user ∷ [])
      (Perm.swap password user []) user-password-Distinct
