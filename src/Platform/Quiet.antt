-- ===== src/Platform/Quiet.antt =====
-- Actions that leave no mark outside the operator.
use reloader_operator.Base.{◌≡◌, refl, ◌∙◌, Bool, true, false, if◌then◌else◌}
use reloader_operator.Kube.{Result, ok, err}
use reloader_operator.Platform.{State, M, ◌>>=◌, on_ok}

abbrev pub IsQuiet : {W A : Type 0} → M W A → Type 0
IsQuiet {W} m = (s : State W) → (m s).1.calls ≡ s.calls

module _ {W A B : Type 0} where
  pub bind-IsQuiet :
      (m : M W A) (f : A → M W B) → IsQuiet m → ((a : A) → IsQuiet (f a)) → IsQuiet (m >>= f)
  bind-IsQuiet m f hm hf s = hf (m s).0 (m s).1 ∙ hm s

  pub on_ok-IsQuiet :
      (r : Result A) (f : A → M W (Result B)) → ((a : A) → IsQuiet (f a)) → IsQuiet (on_ok r f)
  on_ok-IsQuiet (ok a) f hf s = hf a s
  on_ok-IsQuiet (err e) f hf s = refl

pub if-IsQuiet :
    {W A : Type 0} (b : Bool) (m n : M W A) → IsQuiet m → IsQuiet n → IsQuiet (if b then m else n)
if-IsQuiet true m n hm hn = hm
if-IsQuiet false m n hm hn = hn
