-- ===== src/Batcher/Whole.antt =====
-- The loop loses no request and splits none, and keeps its batches within the configured size
-- (batcher.go: Run).
use ferret_new.Base.{
  ltb, leb, ℕ, ◌+◌, ◌≡◌, ◌≤◌, ◌<◌, ◌⊎◌, inl, inr, refl, sym, ap, ◌∙◌, arith, Bool, true, false, not,
  ◌&&◌, List, [], ◌∷◌, ◌++◌, All, length, if_elim,
}
use ferret_new.Batcher.{
  make_room, batch_run, batch_step, receive, enqueue_request, reject, dispatch, dispatch_from,
  is_empty_batch, ImageRequest, BatchLoop, new_loop, BatchEvent, receives, expires,
}
use ferret_new.Batcher.Tallies.{
  tally, tally_all, total_images, tally-append, tally_all-snoc, total_images-snoc, Fits, All-snoc,
}

-- What the loop keeps: the requests that were received are in its batches, failed or pending, `n` of
-- each kind; the batches fit; and a timer runs exactly while requests are pending.
pub record IsGathered (size : ℕ) (n : (ImageRequest → Bool) → ℕ) (l : BatchLoop) : Type 0 where
  pub images : l.pending_images ≡ total_images l.pending
  pub small : l.pending_images < size
  pub armed : l.timer_armed ≡ not (is_empty_batch l.pending)
  pub fits : All (Fits size) l.batches
  pub kept :
      (p : ImageRequest → Bool) → tally_all p l.batches + tally p l.failed + tally p l.pending ≡ n p

-- Dispatching leaves nothing pending.
dispatch_from-IsGathered :
    (size : ℕ) (n : (ImageRequest → Bool) → ℕ) (rs : List ImageRequest) (acquired : Bool)
    (l : BatchLoop)
    → 1 ≤ size
    → All (Fits size) l.batches
    → ((r : ImageRequest) (more : List ImageRequest) → rs ≡ r ∷ more → Fits size rs)
    → (rs ≡ [] → (l.pending ≡ []) × (l.pending_images ≡ 0) × (l.timer_armed ≡ false))
    → ((p : ImageRequest → Bool) → tally_all p l.batches + tally p l.failed + tally p rs ≡ n p)
    → IsGathered size n (dispatch_from rs acquired l).0
      × ((dispatch_from rs acquired l).0.pending ≡ [])
unfolding dispatch_from
dispatch_from-IsGathered size n [] acquired l positive fits each idle kept =
    let (none_left, zero_images, off) = idle refl in
    (
      record {
        images = zero_images ∙ ap total_images (sym none_left);
        small = omega (arith, zero_images, positive);
        armed = off ∙ ap (λ r. not (is_empty_batch r)) (sym none_left);
        fits = fits;
        kept =
            λ p. ap (λ r. tally_all p l.batches + tally p l.failed + tally p r) none_left ∙ kept p;
      },
      none_left,
    )
dispatch_from-IsGathered size n (r ∷ rs) true l positive fits each idle kept = (
  record {
    images = refl;
    small = positive;
    armed = refl;
    fits = All-snoc (Fits size) l.batches (r ∷ rs) fits (each r rs refl);
    kept = λ p.
        let moved = tally_all-snoc p l.batches (r ∷ rs) in
        let all = kept p in omega (arith, moved, all);
  },
  refl,
)
dispatch_from-IsGathered size n (r ∷ rs) false l positive fits each idle kept = (
  record {
    images = refl;
    small = positive;
    armed = refl;
    fits = fits;
    kept = λ p.
        let moved = tally-append p l.failed (r ∷ rs) in
        let all = kept p in omega (arith, moved, all);
  },
  refl,
)

module _ (size : ℕ) (positive : 1 ≤ size) where
  dispatch-IsGathered :
      (n : (ImageRequest → Bool) → ℕ) (acquired : Bool) (l : BatchLoop)
      → All (Fits size) l.batches
      → Fits size l.pending
      → (l.pending ≡ [] → (l.pending_images ≡ 0) × (l.timer_armed ≡ false))
      → ((p : ImageRequest → Bool)
          → tally_all p l.batches + tally p l.failed + tally p l.pending ≡ n p)
      → IsGathered size n (dispatch acquired l).0 × ((dispatch acquired l).0.pending ≡ [])
  unfolding dispatch
  dispatch-IsGathered n acquired l fits whole idle kept =
      dispatch_from-IsGathered size n l.pending acquired l positive fits (λ r more e. whole)
        (λ e. (e, (idle e).0, (idle e).1)) kept

  -- One more request.
  abbrev plus : ((ImageRequest → Bool) → ℕ) → List ImageRequest → (ImageRequest → Bool) → ℕ
  plus n rs p = n p + tally p rs

  reject-IsGathered :
      (n : (ImageRequest → Bool) → ℕ) (r : ImageRequest) (l : BatchLoop)
      → IsGathered size n l
      → IsGathered size (plus n (r ∷ [])) (reject r l)
  reject-IsGathered n r l h = record {
    images = h.images;
    small = h.small;
    armed = h.armed;
    fits = h.fits;
    kept = λ p.
        let moved = tally-append p l.failed (r ∷ []) in
        let all = h.kept p in omega (arith, moved, all);
  }

  snoc_nonempty :
      (rs : List ImageRequest) (r : ImageRequest) → is_empty_batch (rs ++ (r ∷ [])) ≡ false
  snoc_nonempty [] r = refl
  snoc_nonempty (x ∷ rs) r = refl

  enqueue_request-IsGathered :
      (n : (ImageRequest → Bool) → ℕ) (r : ImageRequest) (acquired : Bool) (l : BatchLoop)
      → IsGathered size n l
      → (l.pending ≡ []) ⊎ (l.pending_images + r.images ≤ size)
      → IsGathered size (plus n (r ∷ [])) (enqueue_request size r acquired l)
  unfolding enqueue_request
  enqueue_request-IsGathered n r acquired l h room =
      if_elim (IsGathered size (plus n (r ∷ []))) (leb size (l.pending_images + r.images))
        (λ full.
          (dispatch-IsGathered (plus n (r ∷ [])) acquired l' h.fits (fitting room)
            (λ e.
              absurd (let busy = ap is_empty_batch e in let no = snoc_nonempty l.pending r in cc))
            all).0)
        (λ free. record {
          images = sum;
          small = ground arith;
          armed = sym (ap not (snoc_nonempty l.pending r));
          fits = h.fits;
          kept = all;
        })
    where
      l' : BatchLoop
      l' = record l {
        pending = l.pending ++ (r ∷ []);
        pending_images = l.pending_images + r.images;
      }

      sum : l.pending_images + r.images ≡ total_images (l.pending ++ (r ∷ []))
      sum =
          let moved = total_images-snoc l.pending r in
          let known = h.images in omega (arith, moved, known)

      all :
          (p : ImageRequest → Bool)
          → tally_all p l.batches + tally p l.failed + tally p (l.pending ++ (r ∷ []))
            ≡ plus n (r ∷ []) p
      all p =
          let moved = tally-append p l.pending (r ∷ []) in
          let known = h.kept p in omega (arith, moved, known)

      fitting :
          (l.pending ≡ []) ⊎ (l.pending_images + r.images ≤ size)
          → Fits size (l.pending ++ (r ∷ []))
      fitting (inl e) = inr (ap (λ rs. length (rs ++ (r ∷ []))) e)
      fitting (inr le) = inl (omega (arith, le, sum))

  pending_idle :
      (n : (ImageRequest → Bool) → ℕ) (l : BatchLoop)
      → IsGathered size n l
      → l.pending ≡ []
      → (l.pending_images ≡ 0) × (l.timer_armed ≡ false)
  pending_idle n l h e =
      (h.images ∙ ap total_images e, h.armed ∙ ap (λ rs. not (is_empty_batch rs)) e)

  pending-Fits :
      (n : (ImageRequest → Bool) → ℕ) (l : BatchLoop) → IsGathered size n l → Fits size l.pending
  pending-Fits n l h = inl (let known = h.images in let few = h.small in omega (arith, known, few))

  receive-IsGathered :
      (n : (ImageRequest → Bool) → ℕ) (r : ImageRequest) (cancelled first second : Bool)
      (l : BatchLoop)
      → IsGathered size n l
      → IsGathered size (plus n (r ∷ [])) (receive size r cancelled first second l)
  unfolding receive
  receive-IsGathered n r cancelled first second l h =
      if_elim (IsGathered size (plus n (r ∷ []))) cancelled (λ _. reject-IsGathered n r l h)
        (λ _.
          if_elim (IsGathered size (plus n (r ∷ [])))
            (not (is_empty_batch l.pending) && ltb size (l.pending_images + r.images))
            (λ _. roomy (dispatch first l) (
              dispatch-IsGathered n first l h.fits (pending-Fits n l h) (pending_idle n l h)
                h.kept))
            (λ fine. enqueue_request-IsGathered n r second l h (fitting l.pending refl fine)))
    where
      roomy :
          (d : BatchLoop × Bool)
          → IsGathered size n d.0 × (d.0.pending ≡ [])
          → IsGathered size (plus n (r ∷ [])) (make_room size r second d)
      roomy (d, true) k = reject-IsGathered n r d k.0
      roomy (d, false) k = enqueue_request-IsGathered n r second d k.0 (inl k.1)

      fitting :
          (rs : List ImageRequest)
          → l.pending ≡ rs
          → (not (is_empty_batch l.pending) && ltb size (l.pending_images + r.images)) ≡ false
          → (l.pending ≡ []) ⊎ (l.pending_images + r.images ≤ size)
      fitting [] e fine = inl e
      fitting (x ∷ rs) e fine =
          let busy : is_empty_batch l.pending ≡ false = ap is_empty_batch e in
          inr (ground (arith, busy, fine))

  abbrev pub got : BatchEvent → List ImageRequest
  got (receives r cancelled first second) = r ∷ []
  got (expires acquired) = []

  abbrev pub received_by : List BatchEvent → List ImageRequest
  received_by [] = []
  received_by (e ∷ es) = got e ++ received_by es

  more_kept :
      (m n : (ImageRequest → Bool) → ℕ) (l : BatchLoop)
      → ((p : ImageRequest → Bool) → m p ≡ n p)
      → IsGathered size m l
      → IsGathered size n l
  more_kept m n l same h = record {
    images = h.images;
    small = h.small;
    armed = h.armed;
    fits = h.fits;
    kept = λ p. h.kept p ∙ same p;
  }

  batch_step-IsGathered :
      (n : (ImageRequest → Bool) → ℕ) (e : BatchEvent) (l : BatchLoop)
      → IsGathered size n l
      → IsGathered size (plus n (got e)) (batch_step size e l)
  unfolding batch_step
  batch_step-IsGathered n (receives r cancelled first second) l h =
      receive-IsGathered n r cancelled first second l h
  batch_step-IsGathered n (expires acquired) l h =
      more_kept n (plus n []) _ (λ p. omega arith)
        (if_elim (IsGathered size n) l.timer_armed
          (λ _.
            (dispatch-IsGathered n acquired (record l { timer_armed = false }) h.fits
              (pending-Fits n l h) (λ e. ((pending_idle n l h e).0, refl)) h.kept).0)
          (λ _. h))

  batch_run_from :
      (n : (ImageRequest → Bool) → ℕ) (es : List BatchEvent) (l : BatchLoop)
      → IsGathered size n l
      → IsGathered size (plus n (received_by es)) (batch_run size es l)
  unfolding batch_run
  batch_run_from n [] l h = more_kept n (plus n []) l (λ p. omega arith) h
  batch_run_from n (e ∷ es) l h =
      more_kept (plus (plus n (got e)) (received_by es)) (plus n (received_by (e ∷ es))) _
        (λ p. let split = tally-append p (got e) (received_by es) in omega (arith, split))
        (batch_run_from (plus n (got e)) es (batch_step size e l) (batch_step-IsGathered n e l h))

  -- For a positive batch size, after any receipts and expiries: every received request is in exactly one
  -- batch, or failed, or pending; a batch has at most that many images or is one request; fewer are
  -- pending; and the timer runs exactly while a request is pending.
  pub batch_run-IsGathered :
      (es : List BatchEvent)
      → IsGathered size (λ p. tally p (received_by es)) (batch_run size es new_loop)
  batch_run-IsGathered es =
      more_kept (plus (λ p. 0) (received_by es)) (λ p. tally p (received_by es)) _
        (λ p. omega arith)
        (batch_run_from (λ p. 0) es new_loop
          (record {
            images = refl;
            small = positive;
            armed = refl;
            fits = tt;
            kept = λ p. omega arith;
          }))
