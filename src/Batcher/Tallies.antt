-- ===== src/Batcher/Tallies.antt =====
-- Counting requests and images over lists of requests (batcher.go: Run).
use ferret_new.Base.{
  if◌then◌else◌, ℕ, ◌+◌, ◌≡◌, ◌≤◌, ◌⊎◌, arith, Bool, List, [], ◌∷◌, ◌++◌, All, length,
}
use ferret_new.Batcher.{ImageRequest}

-- The number of requests of which a test holds.
abbrev pub tally : (ImageRequest → Bool) → List ImageRequest → ℕ
tally p [] = 0
tally p (r ∷ rs) = (if p r then 1 else 0) + tally p rs

abbrev pub tally_all : (ImageRequest → Bool) → List (List ImageRequest) → ℕ
tally_all p [] = 0
tally_all p (b ∷ bs) = tally p b + tally_all p bs

abbrev pub total_images : List ImageRequest → ℕ
total_images [] = 0
total_images (r ∷ rs) = r.images + total_images rs

pub tally-append :
    (p : ImageRequest → Bool) (xs ys : List ImageRequest)
    → tally p (xs ++ ys) ≡ tally p xs + tally p ys
tally-append p [] ys = omega arith
tally-append p (x ∷ xs) ys = let ih = tally-append p xs ys in omega (arith, ih)

pub tally_all-snoc :
    (p : ImageRequest → Bool) (bs : List (List ImageRequest)) (b : List ImageRequest)
    → tally_all p (bs ++ (b ∷ [])) ≡ tally_all p bs + tally p b
tally_all-snoc p [] b = omega arith
tally_all-snoc p (x ∷ bs) b = let ih = tally_all-snoc p bs b in omega (arith, ih)

pub total_images-snoc :
    (rs : List ImageRequest) (r : ImageRequest)
    → total_images (rs ++ (r ∷ [])) ≡ total_images rs + r.images
total_images-snoc [] r = omega arith
total_images-snoc (x ∷ rs) r = let ih = total_images-snoc rs r in omega (arith, ih)

-- A batch has no more images than the size, or is one request.
abbrev pub Fits : ℕ → List ImageRequest → Type 0
Fits size b = (total_images b ≤ size) ⊎ (length b ≡ 1)

pub All-snoc :
    (P : List ImageRequest → Type 0) (bs : List (List ImageRequest)) (b : List ImageRequest)
    → All P bs
    → P b
    → All P (bs ++ (b ∷ []))
All-snoc P [] b h k = (k, tt)
All-snoc P (x ∷ bs) b h k = (h.0, All-snoc P bs b h.1 k)
