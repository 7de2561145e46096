-- ===== src/Base/Lists.antt =====
-- Lists measured by native numbers, predicates on lists, and tests of a list.
use Prim.Native.Nat.{ℕ, suc, ◌+◌}
use mathlib.Core.Path.{◌≡◌}
use mathlib.Core.Logic.{◌⊎◌, inl, inr}
use mathlib.Core.Bool.{Bool, false, ◌||◌}
use mathlib.Core.List.{List, [], ◌∷◌, ◌++◌}
use native.Mathlib.Omega.{arith}

module _ {ℓ} {A : Type ℓ} where
  abbrev pub length : List A → ℕ
  length [] = 0
  length (x ∷ xs) = suc (length xs)

  pub length-append : (xs ys : List A) → length (xs ++ ys) ≡ length xs + length ys
  length-append [] ys = omega arith
  length-append (x ∷ xs) ys = omega (arith, length-append xs ys)

  -- A loop that returns true at the first item that passes the test, and else false.
  abbrev pub any : (A → Bool) → List A → Bool
  any p [] = false
  any p (x ∷ xs) = p x || any p xs

module _ {ℓ} {A : Type ℓ} where
  abbrev pub All {κ} : (A → Type κ) → List A → Type κ
  All P [] = Unit
  All P (x ∷ xs) = P x × All P xs

  -- Some item satisfies `P`, with the place where it stands.
  abbrev pub Some : (A → Type 0) → List A → Type 0
  Some P [] = ⊥
  Some P (x ∷ xs) = P x ⊎ Some P xs

pub All-append :
    {A : Type 0} (P : A → Type 0) (xs ys : List A) → All P xs → All P ys → All P (xs ++ ys)
All-append P [] ys h k = k
All-append P (x ∷ xs) ys (p, h) k = (p, All-append P xs ys h k)

pub All-implies :
    {A : Type 0} (P Q : A → Type 0) (xs : List A) → ((x : A) → P x → Q x) → All P xs → All Q xs
All-implies P Q [] f h = tt
All-implies P Q (x ∷ xs) f (p, h) = (f x p, All-implies P Q xs f h)

pub Some-append_right :
    {A : Type 0} (P : A → Type 0) (xs ys : List A) → Some P ys → Some P (xs ++ ys)
Some-append_right P [] ys h = h
Some-append_right P (x ∷ xs) ys h = inr (Some-append_right P xs ys h)

pub Some-append_left :
    {A : Type 0} (P : A → Type 0) (xs ys : List A) → Some P xs → Some P (xs ++ ys)
Some-append_left P (x ∷ xs) ys (inl h) = inl h
Some-append_left P (x ∷ xs) ys (inr h) = inr (Some-append_left P xs ys h)
Some-append_left P [] ys h = elim h [ ]

-- An item from the middle of a list, and the others.
pub All-middle :
    {A : Type 0} (P : A → Type 0) (xs : List A) (y : A) (ys : List A)
    → All P (xs ++ (y ∷ ys))
    → P y × All P (xs ++ ys)
All-middle P [] y ys (p, h) = (p, h)
All-middle P (x ∷ xs) y ys (p, h) = let (q, k) = All-middle P xs y ys h in (q, (p, k))
