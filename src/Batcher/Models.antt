-- ===== src/Batcher/Models.antt =====
-- The adopted model is that of the latest accepted response (batcher.go: observeModel).
use mathlib.Core.List.{Memᴰ}
use ferret_new.Base.{
  sym, subst, ℕ, ◌≡◌, ◌≤◌, refl, arith, Bool, true, false, not, ◌&&◌, Option, none, some, List, [],
  ◌∷◌, All, All-map, ltb, leb, ◌==◌, if_elim,
}
use ferret_new.Base.Bytes.{text_eq}
use ferret_new.Batcher.{ModelInfo, Adoption, Observation, accepted, call_back, observe_model}

-- A response: what the callback answers, the epoch of its dispatch and its model.
pub record Response : Type 0 where
  pub adopts : Bool
  pub epoch : ℕ
  pub info : ModelInfo

abbrev log_of :
    Response → Option Adoption × Observation → List Adoption → Option Adoption × List Adoption
log_of r (a, accepted) log = (a, record { model = r.info; epoch = r.epoch } ∷ log)
log_of r (a, o) log = (a, log)

-- Responses in the order in which they are observed, with the log of the accepted ones.
unfoldable pub observe_all :
    List Response → Option Adoption × List Adoption → Option Adoption × List Adoption
observe_all [] (a, log) = (a, log)
observe_all (r ∷ rs) (a, log) =
    observe_all rs (log_of r (observe_model r.adopts r.epoch r.info a) log)

-- The adopted model is in the log, and nothing in the log is of a later epoch.
abbrev pub IsLatest : Option Adoption × List Adoption → Type 0
IsLatest (none, log) = log ≡ []
IsLatest (some a, log) = Memᴰ a log × All (λ b. b.epoch ≤ a.epoch) log

called-IsLatest :
    (r : Response) (adopts : Bool) (o : Option Adoption) (log : List Adoption)
    → IsLatest (o, log)
    → IsLatest (log_of r (call_back adopts r.info r.epoch o) log)
called-IsLatest r false o log h = h
called-IsLatest r true none log h =
    (Memᴰ.head refl, (omega arith, subst (All (λ b. b.epoch ≤ r.epoch)) (sym h) tt))
called-IsLatest r true (some a) log h =
    if_elim (λ o. IsLatest (o, record { model = r.info; epoch = r.epoch } ∷ log))
      (leb a.epoch r.epoch)
      (λ later. (
        Memᴰ.head refl,
        (
          omega arith,
          All-map (λ b. b.epoch ≤ a.epoch) (λ b. b.epoch ≤ r.epoch)
              (λ b le. ground (arith, le, later)) log h.1,
        ),
      ))
      (λ earlier. (Memᴰ.tail h.0, (ground arith, h.1)))

observed-IsLatest :
    (r : Response) (o : Option Adoption) (log : List Adoption)
    → IsLatest (o, log)
    → IsLatest (log_of r (observe_model r.adopts r.epoch r.info o) log)
unfolding observe_model
observed-IsLatest r none log h = called-IsLatest r r.adopts none log h
observed-IsLatest r (some a) log h =
    if_elim {A = Option Adoption × Observation} (λ q. IsLatest (log_of r q log))
      (text_eq r.info.version a.model.version && not (r.info.dims == a.model.dims)) (λ _. h)
      (λ _.
        if_elim {A = Option Adoption × Observation} (λ q. IsLatest (log_of r q log))
          (ltb r.epoch a.epoch && not (text_eq r.info.version a.model.version)) (λ _. h)
          (λ _. called-IsLatest r r.adopts (some a) log h))

observe_from :
    (rs : List Response) (s : Option Adoption × List Adoption)
    → IsLatest s
    → IsLatest (observe_all rs s)
unfolding observe_all
observe_from [] s h = h
observe_from (r ∷ rs) s h =
    observe_from rs (log_of r (observe_model r.adopts r.epoch r.info s.0) s.1)
      (observed-IsLatest r s.0 s.1 h)

-- Whatever the order in which responses arrive: the adopted model is one that was accepted, and none
-- that was accepted was dispatched later; without an accepted response, no model is adopted.
pub observe_all-IsLatest : (rs : List Response) → IsLatest (observe_all rs (none, []))
observe_all-IsLatest rs = observe_from rs (none, []) refl
