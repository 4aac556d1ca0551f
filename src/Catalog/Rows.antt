-- ===== src/Catalog/Rows.antt =====
-- What the lookups of the catalog find (catalog.go).
use ferret_new.TaskQueue.Slots.Step.{Holds}
use mathlib.Core.List.{Memᴰ}
use ferret_new.Base.Pairwise.{Pairwise}
use ferret_new.Base.{
  ==_iff, if_elim, All-mem, ℕ, ◌<◌, ◌≡◌, ◌≢◌, refl, sym, ap, ◌∙◌, Option, none, some, List, [], ◌∷◌,
  Bool-cases, inl, inr, ◌==◌, arith,
}
use ferret_new.Base.Bytes.{Text, text_eq, text_eq_iff}
use ferret_new.TaskQueue.{FileRow, path_key}
use ferret_new.Catalog.{owner_check, file_by_id, file_by_key, next_file_id}

pub file_by_id_sound :
    (id : ℕ) (fs : List FileRow) (f : FileRow) → file_by_id id fs ≡ some f → Memᴰ f fs × (f.id ≡ id)
unfolding file_by_id
file_by_id_sound id [] f h = cc
file_by_id_sound id (x ∷ fs) f h = elim (Bool-cases (x.id == id)) [
  | inl hit ↦ (Memᴰ.head (ground arith), ground arith)
  | inr miss ↦ let (m, e) = file_by_id_sound id fs f (ground arith) in (Memᴰ.tail m, e)
]

pub file_by_key_sound :
    (key : Text) (fs : List FileRow) (f : FileRow)
    → file_by_key key fs ≡ some f
    → Memᴰ f fs × (path_key f.path ≡ key)
unfolding file_by_key
file_by_key_sound key [] f h = cc
file_by_key_sound key (x ∷ fs) f h = elim (Bool-cases (text_eq (path_key x.path) key)) [
  | inl hit ↦
      let it : x ≡ f = ground arith in
      (
        Memᴰ.head (sym it),
        ap (λ r. path_key r.path) (sym it) ∙ (text_eq_iff (path_key x.path) key).0 hit,
      )
  | inr miss ↦ let (m, e) = file_by_key_sound key fs f (ground arith) in (Memᴰ.tail m, e)
]

pub file_by_key-none :
    (key : Text) (fs : List FileRow) (f : FileRow)
    → file_by_key key fs ≡ none
    → Memᴰ f fs
    → path_key f.path ≢ key
unfolding file_by_key
file_by_key-none key [] f h m e = elim m [ ]
file_by_key-none key (x ∷ fs) f h (Memᴰ.head i) e =
    let hit = (text_eq_iff (path_key x.path) key).1 (ap (λ r. path_key r.path) (sym i) ∙ e) in
    absurd (ground arith)
file_by_key-none key (x ∷ fs) f h (Memᴰ.tail m) e = file_by_key-none key fs f (ground arith) m e

pub next_file_id-fresh : (fs : List FileRow) (f : FileRow) → Memᴰ f fs → f.id < next_file_id fs
unfolding next_file_id
next_file_id-fresh [] f m = elim m [ ]
next_file_id-fresh (x ∷ fs) f (Memᴰ.head e) = ground arith
next_file_id-fresh (x ∷ fs) f (Memᴰ.tail m) = ground (arith, next_file_id-fresh fs f m)

-- Two files with different ids and different path keys.
abbrev pub IsApart : FileRow → FileRow → Type 0
IsApart f g = (f.id ≢ g.id) × (path_key f.path ≢ path_key g.path)

-- The ids and the path keys of the files are distinct.
abbrev pub FilesUnique : List FileRow → Type 0
FilesUnique fs = Pairwise IsApart fs

pub same_file :
    (fs : List FileRow) (f g : FileRow)
    → FilesUnique fs
    → Memᴰ f fs
    → Memᴰ g fs
    → f.id ≡ g.id
    → f ≡ g
same_file [] f g h m l e = elim m [ ]
same_file (x ∷ fs) f g h (Memᴰ.head a) (Memᴰ.head b) e = a ∙ sym b
same_file (x ∷ fs) f g h (Memᴰ.head a) (Memᴰ.tail l) e =
    absurd ((All-mem (IsApart x) g fs h.0 l).0 (ap (λ r. r.id) (sym a) ∙ e))
same_file (x ∷ fs) f g h (Memᴰ.tail m) (Memᴰ.head b) e =
    absurd ((All-mem (IsApart x) f fs h.0 m).0 (ap (λ r. r.id) (sym b) ∙ sym e))
same_file (x ∷ fs) f g h (Memᴰ.tail m) (Memᴰ.tail l) e = same_file fs f g h.1 m l e

pub same_key :
    (fs : List FileRow) (f g : FileRow)
    → FilesUnique fs
    → Memᴰ f fs
    → Memᴰ g fs
    → path_key f.path ≡ path_key g.path
    → f ≡ g
same_key [] f g h m l e = elim m [ ]
same_key (x ∷ fs) f g h (Memᴰ.head a) (Memᴰ.head b) e = a ∙ sym b
same_key (x ∷ fs) f g h (Memᴰ.head a) (Memᴰ.tail l) e =
    absurd ((All-mem (IsApart x) g fs h.0 l).1 (ap (λ r. path_key r.path) (sym a) ∙ e))
same_key (x ∷ fs) f g h (Memᴰ.tail m) (Memᴰ.head b) e =
    absurd ((All-mem (IsApart x) f fs h.0 m).1 (ap (λ r. path_key r.path) (sym b) ∙ sym e))
same_key (x ∷ fs) f g h (Memᴰ.tail m) (Memᴰ.tail l) e = same_key fs f g h.1 m l e

-- No other file than that of this id has the path key.
abbrev pub FreeFor : ℕ → Text → List FileRow → Type 0
FreeFor id key fs = (u : FileRow) → Memᴰ u fs → u.id ≢ id → path_key u.path ≢ key

-- A file's own key is free for it.
pub own_key-FreeFor :
    (fs : List FileRow) (f : FileRow)
    → FilesUnique fs
    → Memᴰ f fs
    → FreeFor f.id (path_key f.path) fs
own_key-FreeFor fs f h m u l differ same = differ (ap (λ r. r.id) (same_key fs u f h l m same))

pub owner_check-FreeFor :
    (id : ℕ) (key : Text) (fs : List FileRow)
    → FilesUnique fs
    → Holds (λ _. FreeFor id key fs) (owner_check id (file_by_key key fs))
owner_check-FreeFor id key fs h = at (file_by_key key fs) refl
  where
    at :
        (o : Option FileRow)
        → file_by_key key fs ≡ o
        → Holds (λ _. FreeFor id key fs) (owner_check id o)
    at none e = λ u m differ. file_by_key-none key fs u e m
    at (some f) e =
        let (m, k) = file_by_key_sound key fs f e in
        if_elim (Holds (λ _. FreeFor id key fs)) (f.id == id)
          (λ own u l differ same.
            differ (ap (λ r. r.id) (same_key fs u f h l m (same ∙ sym k)) ∙ (==_iff f.id id).0 own))
          (λ _. tt)
