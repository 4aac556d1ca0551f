-- ===== src/Catalog/Paths.antt =====
-- What is written in the catalog is found again, by its id and by its path (catalog.go: UpsertFileTx,
-- RelocateFile).
use ferret_new.Catalog.Rows.{
  next_file_id-fresh, same_key, file_by_key_sound, IsApart, file_by_key-none, FilesUnique,
}
use mathlib.Core.List.{Memᴰ}
use ferret_new.TaskQueue.Slots.Step.{skip-Holds, both-Holds, weaken-Holds, Holds}
use ferret_new.TaskQueue.{FileRow}
use ferret_new.Catalog.{
  validate_file, Result, next_file_id, path_key, has_file_id, file_by_key, update_if, upsert_file,
  file_by_id, upsert_into,
}
use ferret_new.Catalog.Fence.{Keeps, upsert_file-Keeps}
use ferret_new.Base.{
  leb, if_elim, ==_iff, true, All-mem, ℕ, ◌≡◌, ◌≢◌, refl, sym, ap, ◌∙◌, arith, Option, none, some,
  List, [], ◌∷◌, ◌++◌, inl, inr, Bool-cases, ◌==◌,
}

pub file_by_id-mem :
    (fs : List FileRow) (f : FileRow) → FilesUnique fs → Memᴰ f fs → file_by_id f.id fs ≡ some f
unfolding file_by_id
file_by_id-mem [] f h m = elim m [ ]
file_by_id-mem (x ∷ fs) f h (Memᴰ.head e) = let same = ap (λ r. r.id) e in ground (arith, ap some e)
file_by_id-mem (x ∷ fs) f h (Memᴰ.tail m) =
    let apart = (All-mem (IsApart x) f fs h.0 m).0 in
    let it = file_by_id-mem fs f h.1 m in ground arith

pub file_by_key-mem :
    (fs : List FileRow) (f : FileRow)
    → FilesUnique fs
    → Memᴰ f fs
    → file_by_key (path_key f.path) fs ≡ some f
file_by_key-mem fs f h m = at (file_by_key (path_key f.path) fs) refl
  where
    at : (o : Option FileRow) → file_by_key (path_key f.path) fs ≡ o → o ≡ some f
    at none e = absurd (file_by_key-none (path_key f.path) fs f e m refl)
    at (some g) e =
        let (l, k) = file_by_key_sound (path_key f.path) fs g e in ap some (same_key fs g f h l m k)

mem-snoc : (fs : List FileRow) (f : FileRow) → Memᴰ f (fs ++ (f ∷ []))
mem-snoc [] f = Memᴰ.head refl
mem-snoc (x ∷ fs) f = Memᴰ.tail (mem-snoc fs f)

mem-replace :
    (id : ℕ) (new : FileRow) (fs : List FileRow) (f : FileRow)
    → Memᴰ f fs
    → f.id ≡ id
    → Memᴰ new (update_if (has_file_id id) (λ _. new) fs)
mem-replace id new [] f m e = elim m [ ]
mem-replace id new (x ∷ fs) f (Memᴰ.head i) e =
    let hit : has_file_id id x ≡ true = (==_iff x.id id).1 (ap (λ r. r.id) (sym i) ∙ e) in
    Memᴰ.head (rw hit refl)
mem-replace id new (x ∷ fs) f (Memᴰ.tail m) e = Memᴰ.tail (mem-replace id new fs f m e)

-- The other ids find what they found.
abbrev pub SameElsewhere : ℕ → List FileRow → List FileRow → Type 0
SameElsewhere id fs gs = (other : ℕ) → other ≢ id → file_by_id other gs ≡ file_by_id other fs

snoc-SameElsewhere : (fs : List FileRow) (f : FileRow) → SameElsewhere f.id fs (fs ++ (f ∷ []))
unfolding file_by_id
snoc-SameElsewhere [] f other differ = ground arith
snoc-SameElsewhere (x ∷ fs) f other differ = rw (snoc-SameElsewhere fs f other differ) refl

replace-SameElsewhere :
    (id : ℕ) (new : FileRow) (fs : List FileRow)
    → new.id ≡ id
    → SameElsewhere id fs (update_if (has_file_id id) (λ _. new) fs)
unfolding file_by_id
replace-SameElsewhere id new [] e other differ = refl
replace-SameElsewhere id new (x ∷ fs) e other differ =
    let rest = replace-SameElsewhere id new fs e other differ in
    elim (Bool-cases (x.id == id)) [
      | inl hit ↦ rw hit (ground arith)
      | inr miss ↦ rw miss (rw rest refl)
    ]

-- The id of the row that had the path, or else an id that no row had.
abbrev pub IdFor : List FileRow → Option FileRow → ℕ → Type 0
IdFor fs none id = (f : FileRow) → Memᴰ f fs → f.id ≢ id
IdFor fs (some old) id = id ≡ old.id

-- The row is the file in every column but the id, which is the old row's or new; it is found by its id
-- and by its path, and the other ids find what they found.
abbrev pub Written : FileRow → List FileRow → List FileRow × FileRow → Type 0
Written file fs (gs, f) =
    (f ≡ record file { id = f.id })
    × IdFor fs (file_by_key (path_key file.path) fs) f.id
    × (file_by_key (path_key file.path) gs ≡ some f)
    × (file_by_id f.id gs ≡ some f)
    × SameElsewhere f.id fs gs

abbrev Placed : FileRow → List FileRow → Option FileRow → List FileRow × FileRow → Type 0
Placed file fs o r =
    ((r.1 ≡ record file { id = r.1.id }) × IdFor fs o r.1.id)
    × Memᴰ r.1 r.0
    × SameElsewhere r.1.id fs r.0

upsert_into-Placed :
    (file : FileRow) (fs : List FileRow)
    → Holds
        (Placed file fs (file_by_key (path_key file.path) fs))
        (upsert_into file (file_by_key (path_key file.path) fs) fs)
unfolding upsert_into
upsert_into-Placed file fs = at (file_by_key (path_key file.path) fs) refl
  where
    at :
        (o : Option FileRow)
        → file_by_key (path_key file.path) fs ≡ o
        → Holds (Placed file fs o) (upsert_into file o fs)
    at none e =
        let new : FileRow = record file { id = next_file_id fs } in
        (
          (
            refl,
            λ f m same.
                let fresh = next_file_id-fresh fs f m in absurd (omega (arith, same, fresh)),
          ),
          mem-snoc fs new,
          snoc-SameElsewhere fs new,
        )
    at (some f) e =
        let new : FileRow = record file { id = f.id } in
        let (m, k) = file_by_key_sound (path_key file.path) fs f e in
        if_elim {A = Result (List FileRow × FileRow)}
          (Holds {A = List FileRow × FileRow} (Placed file fs (some f)))
          (leb f.generation file.generation)
          (λ _. (
            (refl, refl),
            mem-replace f.id new fs f m refl,
            replace-SameElsewhere f.id new fs refl,
          ))
          (λ _. tt)

-- When the files' ids and paths are distinct, the row that is upserted has every column of the file but
-- the id, which is that of the row that had the path, or one that no row had; it is found again by its
-- id and by its path, and the lookups of the other ids are as before.
pub upsert_file-Written :
    (file : FileRow) (fs : List FileRow)
    → FilesUnique fs
    → Holds (Written file fs) (upsert_file file fs)
unfolding upsert_file
upsert_file-Written file fs h =
    weaken-Holds (λ r. Placed file fs (file_by_key (path_key file.path) fs) r × Keeps fs r.0)
      (Written file fs) (upsert_file file fs)
      (λ (gs, f) k. (
        k.0.0.0,
        k.0.0.1,
        ap (λ r. file_by_key (path_key r.path) gs) (sym k.0.0.0) ∙ file_by_key-mem gs f k.1.0 k.0.1,
        file_by_id-mem gs f k.1.0 k.0.1,
        k.0.2,
      ))
      (both-Holds _ (λ r. Keeps fs r.0) (upsert_file file fs)
        (skip-Holds _ (validate_file file) _ (λ _. upsert_into-Placed file fs))
        (upsert_file-Keeps file fs h))
