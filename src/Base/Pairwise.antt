-- ===== src/Base/Pairwise.antt =====
-- Lists whose elements stand pairwise in a relation, and conditional updates of their elements.
use mathlib.Core.List.{Memᴰ, List, [], ◌∷◌, ◌++◌}
use mathlib.Core.Path.{◌≡◌, refl}
use mathlib.Core.Bool.{Bool}
use ferret_new.Base.Tests.{if◌then◌else◌}
use ferret_new.Base.Lists.{All, All-append}

module _ {A : Type 0} where
  abbrev pub update_if : (A → Bool) → (A → A) → List A → List A
  update_if p g [] = []
  update_if p g (x ∷ xs) = (if p x then g x else x) ∷ update_if p g xs

  -- Every element stands in the relation to every later one.
  abbrev pub Pairwise : (A → A → Type 0) → List A → Type 0
  Pairwise R [] = Unit {0}
  Pairwise R (x ∷ xs) = All (R x) xs × Pairwise R xs

  All-update_if :
      (P Q : A → Type 0) (p : A → Bool) (g : A → A) (xs : List A)
      → ((y : A) → Memᴰ y xs → P y → Q (if p y then g y else y))
      → All P xs
      → All Q (update_if p g xs)
  All-update_if P Q p g [] k h = tt
  All-update_if P Q p g (x ∷ xs) k h =
      (k x (Memᴰ.head refl) h.0, All-update_if P Q p g xs (λ y m. k y (Memᴰ.tail m)) h.1)

  -- An update keeps a relation that it keeps for any two elements.
  pub Pairwise-update_if :
      (R : A → A → Type 0) (p : A → Bool) (g : A → A) (xs : List A)
      → ((x y : A)
          → Memᴰ x xs
          → Memᴰ y xs
          → R x y
          → R (if p x then g x else x) (if p y then g y else y))
      → Pairwise R xs
      → Pairwise R (update_if p g xs)
  Pairwise-update_if R p g [] k h = tt
  Pairwise-update_if R p g (x ∷ xs) k h = (
    All-update_if (R x) (R (if p x then g x else x)) p g xs
        (λ y m. k x y (Memᴰ.head refl) (Memᴰ.tail m)) h.0,
    Pairwise-update_if R p g xs (λ y z m l. k y z (Memᴰ.tail m) (Memᴰ.tail l)) h.1,
  )

  pub Pairwise-snoc :
      (R : A → A → Type 0) (xs : List A) (new : A)
      → ((x : A) → Memᴰ x xs → R x new)
      → Pairwise R xs
      → Pairwise R (xs ++ (new ∷ []))
  Pairwise-snoc R [] new k h = (tt, tt)
  Pairwise-snoc R (x ∷ xs) new k h = (
    All-append (R x) xs (new ∷ []) h.0 (k x (Memᴰ.head refl), tt),
    Pairwise-snoc R xs new (λ y m. k y (Memᴰ.tail m)) h.1,
  )

  pub mem-update_if :
      (p : A → Bool) (g : A → A) (xs : List A) (y : A)
      → Memᴰ y (update_if p g xs)
      → (x : A) × Memᴰ x xs × (y ≡ (if p x then g x else x))
  mem-update_if p g [] y m = elim m [ ]
  mem-update_if p g (x ∷ xs) y (Memᴰ.head e) = (x, Memᴰ.head refl, e)
  mem-update_if p g (x ∷ xs) y (Memᴰ.tail m) =
      let (z, k, e) = mem-update_if p g xs y m in (z, Memᴰ.tail k, e)
