-- ===== src/Catalog/Fence.antt =====
-- The generation fence: no statement on the catalog loses a file or takes its generation back
-- (catalog.go).
use ferret_new.Catalog.Rows.{
  same_file, file_by_key_sound, file_by_key-none, next_file_id-fresh, own_key-FreeFor,
  owner_check-FreeFor, IsApart, FreeFor, FilesUnique,
}
use mathlib.Core.List.{Memᴰ}
use ferret_new.Base.{
  ◌≢◌, ap, sym, ◌⊎◌, ◌∙◌, ℕ, ◌≤◌, ◌≡◌, refl, Bool, true, false, not, Option, none, some, List, [],
  ◌∷◌, ◌++◌, if◌then◌else◌, if_elim, leb, ◌==◌, any, arith, Bool-cases, inl, inr,
}
use ferret_new.Base.Pairwise.{Pairwise-update_if, Pairwise-snoc, update_if}
use ferret_new.Base.Bytes.{Text}
use ferret_new.TaskQueue.{FileRow, path_key}
use ferret_new.TaskQueue.Slots.Step.{Holds, and_then-Holds, anything}
use ferret_new.Catalog.{
  empty_path, is_empty, next_file_id, guard, file_by_id, file_by_key, is_current, has_file_id,
  upsert_into, upsert_file, validate_file, bumped, bump_found, bump_generation,
  bump_generation_by_id, update_current, owner_check, prepared_row, prepare_anchored, relocate_file,
  set_current, mark_file_deleted,
}

-- Every file of the first table is in the second, with a generation that is no smaller.
abbrev pub Advances : List FileRow → List FileRow → Type 0
Advances fs fs' =
    (id : ℕ) (f : FileRow)
    → file_by_id id fs ≡ some f
    → (f' : FileRow) × (file_by_id id fs' ≡ some f') × (f.generation ≤ f'.generation)

pub Advances-refl : (fs : List FileRow) → Advances fs fs
Advances-refl fs id f h = (f, h, omega arith)

pub Advances-trans : (fs gs hs : List FileRow) → Advances fs gs → Advances gs hs → Advances fs hs
Advances-trans fs gs hs a b id f h =
    let (g, k, le) = a id f h in let (r, l, le') = b id g k in (r, l, omega arith)

pub append-Advances : (fs gs : List FileRow) → Advances fs (fs ++ gs)
unfolding file_by_id
append-Advances [] gs id f h = cc
append-Advances (x ∷ fs) gs id f h = elim (Bool-cases (x.id == id)) [
  | inl hit ↦ (x, rw hit refl, ground arith)
  | inr miss ↦ let (f', e, le) = append-Advances fs gs id f (ground arith) in (f', ground arith, le)
]

-- An update that keeps ids and takes no generation back.
pub update_if-Advances :
    (p : FileRow → Bool) (g : FileRow → FileRow) (fs : List FileRow)
    → ((f : FileRow)
        → Memᴰ f fs
        → p f ≡ true
        → ((g f).id ≡ f.id) × (f.generation ≤ (g f).generation))
    → Advances fs (update_if p g fs)
unfolding file_by_id
update_if-Advances p g [] k id f h = cc
update_if-Advances p g (x ∷ fs) k id f h = elim (Bool-cases (x.id == id)) [
  | inl hit ↦ elim (Bool-cases (p x)) [
    | inl chosen ↦ let kept = k x (Memᴰ.head refl) chosen in (g x, ground arith, ground arith)
    | inr passed ↦ (x, ground arith, ground arith)
  ]
  | inr miss ↦
      let (f', e, le) = update_if-Advances p g fs (λ y m. k y (Memᴰ.tail m)) id f (ground arith) in
      elim (Bool-cases (p x)) [
        | inl chosen ↦ let kept = k x (Memᴰ.head refl) chosen in (f', ground arith, le)
        | inr passed ↦ (f', ground arith, le)
      ]
]

-- The files stay unique and advance.
abbrev pub Keeps : List FileRow → List FileRow → Type 0
Keeps fs fs' = FilesUnique fs' × Advances fs fs'

-- What an update may do to a row of an id: keep the id, not take the generation back, and move to a
-- path that no other file has.
abbrev MayUpdate : ℕ → List FileRow → FileRow → FileRow → Type 0
MayUpdate id fs f f' =
    (f.id ≡ id) × (f'.id ≡ id) × (f.generation ≤ f'.generation) × FreeFor id (path_key f'.path) fs

pub update_if-Keeps :
    (id : ℕ) (p : FileRow → Bool) (g : FileRow → FileRow) (fs : List FileRow)
    → ((f : FileRow) → Memᴰ f fs → p f ≡ true → MayUpdate id fs f (g f))
    → FilesUnique fs
    → Keeps fs (update_if p g fs)
update_if-Keeps id p g fs may h = (
  Pairwise-update_if IsApart p g fs
      (λ x y m l a. apart x y m l a (Bool-cases (p x)) (Bool-cases (p y))) h,
  update_if-Advances p g fs (λ f m c. let (i, j, le, free) = may f m c in (j ∙ sym i, le)),
)
  where
    apart :
        (x y : FileRow)
        → Memᴰ x fs
        → Memᴰ y fs
        → IsApart x y
        → (p x ≡ true) ⊎ (p x ≡ false)
        → (p y ≡ true) ⊎ (p y ≡ false)
        → IsApart (if p x then g x else x) (if p y then g y else y)
    apart x y m l a (inl c) (inl d) = absurd (a.0 ((may x m c).0 ∙ sym (may y l d).0))
    apart x y m l a (inl c) (inr d) =
        let (i, j, le, free) = may x m c in
        let differ : y.id ≢ id = λ e. a.0 (i ∙ sym e) in
        rw (c, d) (λ e. differ (sym e ∙ j), λ e. free y l differ (sym e))
    apart x y m l a (inr c) (inl d) =
        let (i, j, le, free) = may y l d in
        let differ : x.id ≢ id = λ e. a.0 (e ∙ sym i) in
        rw (c, d) (λ e. differ (e ∙ j), λ e. free x m differ e)
    apart x y m l a (inr c) (inr d) = rw (c, d) a

upsert_into-Keeps :
    (file : FileRow) (fs : List FileRow)
    → FilesUnique fs
    → Holds (λ r. Keeps fs r.0) (upsert_into file (file_by_key (path_key file.path) fs) fs)
unfolding upsert_into
upsert_into-Keeps file fs h = at (file_by_key (path_key file.path) fs) refl
  where
    at :
        (o : Option FileRow)
        → file_by_key (path_key file.path) fs ≡ o
        → Holds (λ r. Keeps fs r.0) (upsert_into file o fs)
    at none e = (
      Pairwise-snoc IsApart fs (record file { id = next_file_id fs })
          (λ x m. (
            λ same. let fresh = next_file_id-fresh fs x m in absurd (omega arith),
            file_by_key-none (path_key file.path) fs x e m,
          ))
          h,
      append-Advances fs (record file { id = next_file_id fs } ∷ []),
    )
    at (some f) e =
        let (m, k) = file_by_key_sound (path_key file.path) fs f e in
        if_elim (Holds (λ r. Keeps fs r.0)) (leb f.generation file.generation)
          (λ newer.
            update_if-Keeps f.id (has_file_id f.id) (λ _. record file { id = f.id }) fs
              (λ x l c.
                let i : x.id ≡ f.id = ground arith in
                let it = same_file fs x f h l m i in
                (
                  i,
                  refl,
                  ground (arith, ap (λ r. r.generation) it),
                  λ u n differ same. own_key-FreeFor fs f h m u n differ (same ∙ sym k),
                ))
              h)
          (λ _. tt)

pub upsert_file-Keeps :
    (file : FileRow) (fs : List FileRow)
    → FilesUnique fs
    → Holds (λ r. Keeps fs r.0) (upsert_file file fs)
unfolding upsert_file
upsert_file-Keeps file fs h =
    and_then-Holds (λ _. Unit {0}) (λ r. Keeps fs r.0) (validate_file file) _
      (anything (validate_file file)) (λ _ _. upsert_into-Keeps file fs h)

-- An update of the row of an id in place.
pub in_place_mem-Keeps :
    (p : FileRow → Bool) (g : FileRow → FileRow) (id : ℕ) (fs : List FileRow)
    → ((f : FileRow)
        → Memᴰ f fs
        → p f ≡ true
        → (f.id ≡ id)
          × ((g f).id ≡ f.id)
          × ((g f).path ≡ f.path)
          × (f.generation ≤ (g f).generation))
    → FilesUnique fs
    → Keeps fs (update_if p g fs)
in_place_mem-Keeps p g id fs k h =
    update_if-Keeps id p g fs
      (λ f m c.
        let (i, j, same, le) = k f m c in
        (
          i,
          j ∙ i,
          le,
          λ u n differ e. own_key-FreeFor fs f h m u n (λ d. differ (d ∙ i)) (e ∙ ap path_key same),
        ))
      h

pub in_place-Keeps :
    (p : FileRow → Bool) (g : FileRow → FileRow) (id : ℕ) (fs : List FileRow)
    → ((f : FileRow)
        → p f ≡ true
        → (f.id ≡ id)
          × ((g f).id ≡ f.id)
          × ((g f).path ≡ f.path)
          × (f.generation ≤ (g f).generation))
    → FilesUnique fs
    → Keeps fs (update_if p g fs)
in_place-Keeps p g id fs k h = in_place_mem-Keeps p g id fs (λ f m c. k f c) h

bump_found-Keeps :
    (o : Option FileRow) (fs : List FileRow)
    → FilesUnique fs
    → Holds (λ r. Keeps fs r.0) (bump_found o fs)
unfolding bump_found
bump_found-Keeps none fs h = tt
bump_found-Keeps (some f) fs h =
    in_place-Keeps (has_file_id f.id) bumped f.id fs
      (λ x c. (ground arith, refl, refl, omega arith)) h

pub bump_generation-Keeps :
    (path : Text) (fs : List FileRow)
    → FilesUnique fs
    → Holds (λ r. Keeps fs r.0) (bump_generation path fs)
unfolding bump_generation
bump_generation-Keeps path fs h = bump_found-Keeps (file_by_key (path_key path) fs) fs h

pub bump_generation_by_id-Keeps :
    (id : ℕ) (fs : List FileRow)
    → FilesUnique fs
    → Holds (λ r. Keeps fs r.0) (bump_generation_by_id id fs)
unfolding bump_generation_by_id
bump_generation_by_id-Keeps id fs h = bump_found-Keeps (file_by_id id fs) fs h

update_current-Keeps :
    (id generation : ℕ) (g : FileRow → FileRow) (key : Text) (o : Option FileRow)
    (fs : List FileRow)
    → ((f : FileRow)
        → ((g f).id ≡ f.id) × (path_key (g f).path ≡ key) × ((g f).generation ≡ f.generation))
    → FreeFor id key fs
    → FilesUnique fs
    → Holds (λ r. Keeps fs r.0) (update_current id generation g o fs)
unfolding update_current
update_current-Keeps id generation g key none fs k free h = tt
update_current-Keeps id generation g key (some f) fs k free h =
    if_elim (Holds (λ r. Keeps fs r.0)) (f.generation == generation)
      (λ _.
        update_if-Keeps id (is_current id generation) g fs
          (λ x m c.
            let i : x.id ≡ id = ground arith in
            let (j, same, gen) = k x in
            (i, j ∙ i, omega (arith, gen), λ u n differ e. free u n differ (e ∙ same)))
          h)
      (λ _. tt)

pub prepare_anchored-Keeps :
    (id : ℕ) (file : FileRow) (fs : List FileRow)
    → FilesUnique fs
    → Holds (λ r. Keeps fs r.0) (prepare_anchored id file fs)
unfolding prepare_anchored
prepare_anchored-Keeps id file fs h =
    and_then-Holds (λ _. FreeFor id (path_key file.path) fs) (λ r. Keeps fs r.0)
      (owner_check id (file_by_key (path_key file.path) fs)) _
      (owner_check-FreeFor id (path_key file.path) fs h)
      (λ _ free.
        update_current-Keeps id file.generation (prepared_row file) (path_key file.path)
          (file_by_id id fs) fs (λ f. (refl, refl, refl)) free h)

pub relocate_file-Keeps :
    (id generation : ℕ) (path : Text) (fs : List FileRow)
    → FilesUnique fs
    → Holds (λ r. Keeps fs r.0) (relocate_file id generation path fs)
unfolding relocate_file
relocate_file-Keeps id generation path fs h =
    and_then-Holds (λ _. Unit {0}) (λ r. Keeps fs r.0) (guard (not (is_empty path)) empty_path) _
      (anything (guard (not (is_empty path)) empty_path))
      (λ _ _.
        and_then-Holds (λ _. FreeFor id (path_key path) fs) (λ r. Keeps fs r.0)
          (owner_check id (file_by_key (path_key path) fs)) _
          (owner_check-FreeFor id (path_key path) fs h)
          (λ _ free.
            update_current-Keeps id generation (λ f. record f { path = path }) (path_key path)
              (file_by_id id fs) fs (λ f. (refl, refl, refl)) free h))

pub set_current-Keeps :
    (id generation : ℕ) (g : FileRow → FileRow) (fs : List FileRow)
    → ((f : FileRow)
        → ((g f).id ≡ f.id) × ((g f).path ≡ f.path) × ((g f).generation ≡ f.generation))
    → FilesUnique fs
    → Holds (Keeps fs) (set_current id generation g fs)
unfolding set_current
set_current-Keeps id generation g fs k h =
    if_elim (Holds (Keeps fs)) (any (is_current id generation) fs)
      (λ _.
        in_place-Keeps (is_current id generation) g id fs
          (λ f c. let (j, same, gen) = k f in (ground arith, j, same, omega (arith, gen))) h)
      (λ _. tt)

pub mark_file_deleted-Keeps :
    (id generation : ℕ) (fs : List FileRow)
    → FilesUnique fs
    → Holds (Keeps fs) (mark_file_deleted id generation fs)
unfolding mark_file_deleted
mark_file_deleted-Keeps id generation fs h =
    set_current-Keeps id generation _ fs (λ f. (refl, refl, refl)) h
