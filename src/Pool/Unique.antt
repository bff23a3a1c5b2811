-- ===== src/Pool/Unique.antt =====
-- Distinct domains of the active entries of a pool, under `Add` and `Remove`.
use stack_forge.Base.{
  ℕ, zero, suc, String, ◌≡◌, refl, sym, Bool, true, false, ◌&&◌, ◌||◌, ◌⊎◌, inl, inr, some,
  Option-cases, List, [], ◌∷◌, ◌++◌, set, arith, ◌==◌, eq_iff, ok, Result, err, Result-cases, ◌+◌,
  ◌>>◌,
}
use mathlib.Core.Path.{subst}
use stack_forge.Paths.{dir}
use stack_forge.Host.{
  Host, Codec, RoundTrips, IsWhole, write_path, write_file, read_path-write_path_self,
}
use stack_forge.Pool.{
  Entry, Store, World, is_active, has_active, find_from, load, save, find, admit, add, remove,
  fresh_entry,
}

abbrev pub UniqueActive : List Entry → Type 0
UniqueActive [] = Unit
UniqueActive (e ∷ es) = (is_active e ≡ true → has_active e.domain es ≡ false) × UniqueActive es

has_active-append :
    (d : String) (es : List Entry) (e : Entry)
    → has_active d (es ++ e ∷ []) ≡ (has_active d es || (e.domain == d && is_active e))
unfolding has_active
has_active-append d [] e = ground arith
has_active-append d (f ∷ es) e = ground (arith, has_active-append d es e)

UniqueActive-append :
    (es : List Entry) (e : Entry)
    → has_active e.domain es ≡ false
    → UniqueActive es
    → UniqueActive (es ++ e ∷ [])
unfolding has_active
UniqueActive-append [] e h k = (λ _. refl, tt)
UniqueActive-append (f ∷ es) e h (k, ks) = (
  λ active.
      rw has_active-append
        (ground (arith, eq_iff f.domain e.domain, eq_iff e.domain f.domain, k active)),
  UniqueActive-append es e (ground arith) ks,
)

-- Overwriting an entry by one that is not active makes no domain active.
has_active-set :
    (d : String) (es : List Entry) (i : ℕ) (e : Entry)
    → is_active e ≡ false
    → has_active d es ≡ false
    → has_active d (set es i e) ≡ false
unfolding has_active
has_active-set d [] i e off h = refl
has_active-set d (f ∷ es) zero e off h = ground arith
has_active-set d (f ∷ es) (suc i) e off h = ground (arith, has_active-set d es i e off)

UniqueActive-set :
    (es : List Entry) (i : ℕ) (e : Entry)
    → is_active e ≡ false
    → UniqueActive es
    → UniqueActive (set es i e)
UniqueActive-set [] i e off k = tt
UniqueActive-set (f ∷ es) zero e off (k, ks) = (λ on. cc, ks)
UniqueActive-set (f ∷ es) (suc i) e off (k, ks) =
    (λ on. has_active-set f.domain es i e off (k on), UniqueActive-set es i e off ks)

module _ {B : Type 0} (host : Host B) (path : String) where
  -- The call succeeds, or no write of the file is cut off.
  abbrev pub IsSettled : {A : Type 0} → Result A → Type 0
  IsSettled {A} r = IsWhole host path ⊎ ((a : A) × (r ≡ ok a))

  saved-IsSettled :
      {A : Type 0} (r : Result (Unit {0})) (a : A) → IsSettled (do r; ok a) → IsSettled r
  saved-IsSettled (ok done) a h = inr (done, refl)
  saved-IsSettled (err m) a h = elim h [ inl whole ↦ inl whole | inr (b, never) ↦ cc never ]

module _ {S : Type 0} (codec : Codec Store) (host : Host codec.Bytes) (path : String) where
  -- The pool that the file holds, if it can be read, has the property.
  abbrev pub Holds : (List Entry → Type 0) → World codec.Bytes S → Type 0
  Holds P w = (s : Store) → load codec host path w ≡ ok s → P s.entries

  load-write_path :
      (w : World codec.Bytes S) (s s' : Store) (b : codec.Bytes)
      → RoundTrips codec
      → codec.encode s ≡ ok b
      → load codec host path (record w { files = write_path path b w.files }) ≡ ok s'
      → s' ≡ s
  unfolding load
  load-write_path w s s' b trip encoded h =
      let read = rw (read_path-write_path_self path b w.files, load, trip s b encoded) at h in
      elim (Option-cases (host.read_fault path)) [
        | inl fine ↦ cc (rw fine at read)
        | inr (m, bad) ↦ cc (rw bad at read)
      ]

  -- A save leaves the world alone, or writes the encoded pool, if it succeeds or is not cut off.
  save_cases :
      (w : World codec.Bytes S) (s : Store)
      → IsSettled host path (save codec host path s w).1
      → ((save codec host path s w).0 ≡ w)
        ⊎ ((b : codec.Bytes) × (codec.encode s ≡ ok b)
            × ((save codec host path s w).0 ≡ record w { files = write_path path b w.files }))
  unfolding save write_file
  save_cases w s settled = elim (Option-cases (host.mkdir_fault (dir path))) [
    | inr (m, bad) ↦ inl (rw (bad, save))
    | inl made ↦ elim (Result-cases (codec.encode s)) [
      | inl (m, bad) ↦ inl (rw (made, bad, save))
      | inr (b, encoded) ↦ elim (Option-cases (host.write_fault path b)) [
        | inr (m, bad) ↦ elim settled [
          | inl whole ↦ inl (rw (made, encoded, save, write_file, bad, whole b) refl)
          | inr (done, good) ↦ cc (rw (made, encoded, save, write_file, bad) at good)
        ]
        | inl written ↦ inr (b, encoded, rw (made, encoded, save, write_file, written) refl)
      ]
    ]
  ]

  -- After a save the file holds what it held, or what was saved.
  pub save-Holds :
      (P : List Entry → Type 0) (w : World codec.Bytes S) (s : Store)
      → IsSettled host path (save codec host path s w).1
      → RoundTrips codec
      → Holds P w
      → P s.entries
      → Holds P (save codec host path s w).0
  save-Holds P w s settled trip old new = elim (save_cases w s settled) [
    | inl kept ↦ subst (Holds P) (sym kept) old
    | inr (b, encoded, written) ↦
        subst (Holds P) (sym written)
          (λ s' h. subst (λ t. P t.entries) (sym (load-write_path w s s' b trip encoded h)) new)
  ]

  admit-eq-ok :
      (e e' : Entry) (internal wildcard : Bool) (w : World codec.Bytes S) (s : Store)
      → admit codec host path e internal wildcard w ≡ ok (s, e')
      → (load codec host path w ≡ ok s) × (has_active e'.domain s.entries ≡ false)
  unfolding admit
  admit-eq-ok e e' internal wildcard w s h = (ground arith, ground arith)

  -- If the pool file, where it can be read, holds no two active entries of one domain, the same is
  -- true after `Add`, provided that the call succeeds, or that a failed write leaves the file as it
  -- was.
  pub add-UniqueActive :
      (e : Entry) (internal wildcard : Bool) (w : World codec.Bytes S)
      → IsSettled host path (add codec host path e internal wildcard w).1
      → RoundTrips codec
      → Holds UniqueActive w
      → (s : Store) → load codec host path (add codec host path e internal wildcard w).0 ≡ ok s
      → UniqueActive s.entries
  unfolding add fresh_entry load
  add-UniqueActive e internal wildcard w settled trip h =
      elim (Result-cases (admit codec host path e internal wildcard w)) [
        | inl (m, refused) ↦ rw (refused, add) h
        | inr ((s, e'), admitted) ↦
            let (loaded, free) = admit-eq-ok e e' internal wildcard w s admitted in
            rw (admitted, add)
              (save-Holds UniqueActive (record w { drawn = w.drawn + 1 }) _
                (saved-IsSettled host path _ _ (rw (admitted, add) at settled)) trip h
                (UniqueActive-append s.entries _ free (h s loaded)))
      ]

  find-eq-ok :
      (text : String) (w : World codec.Bytes S) (e : Entry) (i : ℕ) (s : Store)
      → find codec host path text w ≡ ok (e, i, s)
      → (load codec host path w ≡ ok s) × (find_from 0 text s.entries ≡ some (e, i))
  unfolding find
  find-eq-ok text w e i s h = (ground arith, ground arith)

  -- If the pool file, where it can be read, holds no two active entries of one domain, the same is
  -- true after `Remove`, provided that the call succeeds, or that a failed write leaves the file as
  -- it was.
  pub remove-UniqueActive :
      (text : String) (w : World codec.Bytes S)
      → IsSettled host path (remove codec host path text w).1
      → RoundTrips codec
      → Holds UniqueActive w
      → (s : Store) → load codec host path (remove codec host path text w).0 ≡ ok s
      → UniqueActive s.entries
  unfolding remove
  remove-UniqueActive text w settled trip h = elim (Result-cases (find codec host path text w)) [
    | inl (m, missing) ↦ rw (missing, remove) h
    | inr ((e, i, s), found) ↦
        rw (found, remove)
          (save-Holds UniqueActive w _
            (saved-IsSettled host path _ _ (rw (found, remove) at settled)) trip h
            (UniqueActive-set s.entries i _ refl (h s (find-eq-ok text w e i s found).0)))
  ]
