-- ===== src/TaskQueue/Slots/Waiting.antt =====
-- How many rows a release takes out of their state (taskqueue.go: releaseToPending, ReleaseWaitingDep).
use ferret_new.TaskQueue.Slots.{Apart, IsUnique}
use mathlib.Core.List.{Memᴰ}
use ferret_new.TaskQueue.{has_id, delete_where, update_where}
use ferret_new.Task.{Task}
use ferret_new.Base.{
  ==_iff, All-mem, if◌then◌else◌, ℕ, ◌+◌, ◌≡◌, refl, sym, ap, ◌∙◌, arith, Bool, true, false, ◌&&◌,
  List, [], ◌∷◌, ◌==◌, if_elim, Bool-cases, inl, inr,
}

-- The number of rows of which a test holds.
abbrev pub count_where : (Task → Bool) → List Task → ℕ
count_where q [] = 0
count_where q (t ∷ ts) = let rest = count_where q ts in if q t then rest + 1 else rest

pub count_where-delete_where :
    (p q : Task → Bool) (ts : List Task)
    → count_where q (delete_where p ts) + count_where (λ u. p u && q u) ts ≡ count_where q ts
count_where-delete_where p q [] = refl
count_where-delete_where p q (t ∷ ts) =
    let ih = count_where-delete_where p q ts in ground (arith, ih)

pub count_where-update_where :
    (p q : Task → Bool) (f : Task → Task) (ts : List Task)
    → ((u : Task) → q (f u) ≡ false)
    → count_where q (update_where p f ts) + count_where (λ u. p u && q u) ts ≡ count_where q ts
count_where-update_where p q f [] k = refl
count_where-update_where p q f (t ∷ ts) k =
    let ih = count_where-update_where p q f ts k in
    elim (Bool-cases (p t)) [
      | inl hit ↦ rw hit (ground (arith, ih, k t))
      | inr miss ↦ rw miss (ground (arith, ih))
    ]

pub count_where-same :
    (p q : Task → Bool) (f : Task → Task) (ts : List Task)
    → ((u : Task) → q (f u) ≡ q u)
    → count_where q (update_where p f ts) ≡ count_where q ts
count_where-same p q f [] k = refl
count_where-same p q f (t ∷ ts) k =
    let ih = count_where-same p q f ts k in
    elim (Bool-cases (p t)) [ inl hit ↦ rw (hit, k t, ih) refl | inr miss ↦ rw (miss, ih) refl ]

pub count_where-ext :
    (p q : Task → Bool) (ts : List Task)
    → ((u : Task) → p u ≡ q u)
    → count_where p ts ≡ count_where q ts
count_where-ext p q [] k = refl
count_where-ext p q (t ∷ ts) k = rw (k t, count_where-ext p q ts k) refl

count_where-none :
    (q : Task → Bool) (ts : List Task)
    → ((u : Task) → Memᴰ u ts → q u ≡ false)
    → count_where q ts ≡ 0
count_where-none q [] k = refl
count_where-none q (t ∷ ts) k =
    rw (k t (Memᴰ.head refl), count_where-none q ts (λ u m. k u (Memᴰ.tail m))) refl

-- A row of unique rows is counted once by its id.
pub count_where-one :
    (q : Task → Bool) (ts : List Task) (t : Task)
    → IsUnique ts
    → Memᴰ t ts
    → q t ≡ true
    → count_where (λ u. has_id t.id u && q u) ts ≡ 1
count_where-one q [] t h m c = elim m [ ]
count_where-one q (x ∷ ts) t h (Memᴰ.head e) c =
    let here : (has_id t.id x && q x) ≡ true =
      ap (λ r. has_id t.id r && q r) (sym e) ∙ ground (arith, c) in
    rw here (
      ap (λ n. n + 1)
        (count_where-none (λ u. has_id t.id u && q u) ts
          (λ u l. elim (Bool-cases (has_id t.id u)) [
            | inl hit ↦
                let apart = All-mem (Apart x) u ts h.0 l in
                let same = ap (λ r. r.id) e in
                absurd (apart.0 (sym same ∙ sym ((==_iff u.id t.id).0 hit)))
            | inr miss ↦ rw miss refl
          ])))
count_where-one q (x ∷ ts) t h (Memᴰ.tail m) c =
    let apart = (All-mem (Apart x) t ts h.0 m).0 in
    let miss : (x.id == t.id) ≡ false = ground (arith, apart) in
    rw miss (count_where-one q ts t h.1 m c)

pub mem-kept_update :
    (p : Task → Bool) (f : Task → Task) (ts : List Task) (c : Task)
    → Memᴰ c ts
    → p c ≡ false
    → Memᴰ c (update_where p f ts)
mem-kept_update p f [] c m e = elim m [ ]
mem-kept_update p f (x ∷ ts) c (Memᴰ.head i) e =
    let miss : p x ≡ false = ap p (sym i) ∙ e in Memᴰ.head (rw miss i)
mem-kept_update p f (x ∷ ts) c (Memᴰ.tail m) e = Memᴰ.tail (mem-kept_update p f ts c m e)

pub mem-kept_delete :
    (p : Task → Bool) (ts : List Task) (c : Task)
    → Memᴰ c ts
    → p c ≡ false
    → Memᴰ c (delete_where p ts)
mem-kept_delete p [] c m e = elim m [ ]
mem-kept_delete p (x ∷ ts) c (Memᴰ.head i) e =
    let miss : p x ≡ false = ap p (sym i) ∙ e in rw miss (Memᴰ.head i)
mem-kept_delete p (x ∷ ts) c (Memᴰ.tail m) e =
    if_elim (λ r. Memᴰ c r) (p x) (λ _. mem-kept_delete p ts c m e)
      (λ _. Memᴰ.tail (mem-kept_delete p ts c m e))
