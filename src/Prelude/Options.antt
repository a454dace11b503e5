-- ===== src/Prelude/Options.antt =====
-- Chains of steps that can fail, and a step for each element of a list.
use filly.Prelude.{Option, none, some, List, [], ◌∷◌, ◌≡◌, map, refl, All}

infixl 5 ◌>>=◌
abbrev pub ◌>>=◌ {ℓ κ} : {A : Type ℓ} {B : Type κ} → Option A → (A → Option B) → Option B
none >>= f = none
some a >>= f = f a

unfoldable pub traverse {ℓ κ} :
    {A : Type ℓ} {B : Type κ} → (A → Option B) → List A → Option (List B)
traverse f [] = some []
traverse f (x ∷ xs) = do y ← f x; ys ← traverse f xs; some (y ∷ ys)

-- What each element was made from is made of it again, up to `keep`.
pub traverse-map {ℓ κ μ} :
    {A : Type ℓ} {B : Type κ} (f : A → Option B) (g : B → A) (keep : B → B) (P : B → Type μ)
    → ((y : B) → P y → f (g y) ≡ some (keep y))
    → (ys : List B) → All P ys
    → traverse f (map g ys) ≡ some (map keep ys)
unfolding traverse
traverse-map f g keep P step [] all = refl
traverse-map f g keep P step (y ∷ ys) (p, all) =
    rw (step y p) (rw (traverse-map f g keep P step ys all))
