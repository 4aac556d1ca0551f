-- ===== src/Retry/Wrapping.antt =====
-- An explicit class survives wrapping (errclass.go: Classify, Wrap).
use ferret_new.Base.{All-map, ◌≡◌, refl, Bool, true, false, none, List, [], ◌∷◌, ◌++◌, All, any}
use ferret_new.Retry.{
  Class, transient, permanent, poison, fatal, other, is_valid, normalize, plain, Link,
  first_error_class, first_class, is_disk_full, is_deterministic, valid_or, classify, wrap,
}

normalize_valid : (c : Class) → is_valid (normalize c) ≡ true
unfolding normalize is_valid
normalize_valid transient = refl
normalize_valid permanent = refl
normalize_valid poison = refl
normalize_valid fatal = refl
normalize_valid (other name) = refl

-- An error that says nothing of a class.
abbrev pub IsOpaque : Link → Type 0
IsOpaque l = (l.error_class ≡ none) × (l.class ≡ none) × (l.kind ≡ plain)

first_error_class-append :
    (ws err : List Link)
    → All (λ l. l.error_class ≡ none) ws
    → first_error_class (ws ++ err) ≡ first_error_class err
first_error_class-append [] err h = refl
first_error_class-append (w ∷ ws) err h = rw h.0 (first_error_class-append ws err h.1)

first_class-append :
    (ws err : List Link) → All (λ l. l.class ≡ none) ws → first_class (ws ++ err) ≡ first_class err
first_class-append [] err h = refl
first_class-append (w ∷ ws) err h = rw h.0 (first_class-append ws err h.1)

any-append :
    (p : Link → Bool) (ws err : List Link)
    → All (λ l. p l ≡ false) ws
    → any p (ws ++ err) ≡ any p err
any-append p [] err h = refl
any-append p (w ∷ ws) err h = rw h.0 (any-append p ws err h.1)

-- Wrapping an error in errors that say nothing of a class does not change its class.
pub classify-opaque : (ws err : List Link) → All IsOpaque ws → classify (ws ++ err) ≡ classify err
unfolding classify
classify-opaque ws err h =
    rw
      (
        first_error_class-append ws err (All-map IsOpaque _ (λ l k. k.0) ws h),
        first_class-append ws err (All-map IsOpaque _ (λ l k. k.1) ws h),
        any-append is_disk_full ws err (All-map IsOpaque _ (λ l k. rw k.2 refl) ws h),
        any-append is_deterministic ws err (All-map IsOpaque _ (λ l k. rw k.2 refl) ws h),
      )
      refl

-- An error that was wrapped in a class has that class, or transient if the class is not one of the
-- four, whatever its cause says, and also under further wrappers that have no ErrorClass method.
pub classify-wrap :
    (c : Class) (ws : List Link) (l : Link) (cause : List Link)
    → All (λ w. w.error_class ≡ none) ws
    → classify (ws ++ wrap c (l ∷ cause)) ≡ normalize c
unfolding classify wrap valid_or
classify-wrap c ws l cause h =
    rw (first_error_class-append ws (wrap c (l ∷ cause)) h, normalize_valid c) refl
