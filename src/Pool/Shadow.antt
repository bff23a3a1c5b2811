-- ===== src/Pool/Shadow.antt =====
-- The order of the entries of a pool, and what `Find` and `Remove` make of it.
use stack_forge.Base.{
  inl, ℕ, suc, ◌+◌, String, ◌≡◌, refl, ◌∙◌, ap, true, false, some, List, [], ◌∷◌, ◌++◌, set, length,
  All, arith, ok,
}
use stack_forge.Host.{Host, Codec, RoundTrips, IsWhole}
use stack_forge.Pool.{Entry, Store, World, has_active, is_named, find_from, load, find, remove}
use stack_forge.Pool.Unique.{save-Holds}

find_from-append :
    (i : ℕ) (text : String) (before : List Entry) (e : Entry) (after : List Entry)
    → All (λ f. is_named text f ≡ false) before
    → is_named text e ≡ true
    → find_from i text (before ++ e ∷ after) ≡ some (e, length before + i)
unfolding find_from
find_from-append i text [] e after h k = ground arith
find_from-append i text (f ∷ before) e after (other, h) k =
    ground (arith, find_from-append (suc i) text before e after h k)

set-append :
    (before : List Entry) (e e' : Entry) (after : List Entry)
    → set (before ++ e ∷ after) (length before) e' ≡ before ++ e' ∷ after
set-append [] e e' after = refl
set-append (f ∷ before) e e' after = ap (f ∷◌) (set-append before e e' after)

has_active-later :
    (d : String) (before : List Entry) (e : Entry) (after : List Entry)
    → has_active d after ≡ true
    → has_active d (before ++ e ∷ after) ≡ true
unfolding has_active
has_active-later d [] e after h = ground arith
has_active-later d (f ∷ before) e after h = ground (arith, has_active-later d before e after h)

module _ {S : Type 0} (codec : Codec Store) (host : Host codec.Bytes) (path text : String)
    (before after : List Entry) (old : Entry) where
  find_first :
      (w : World codec.Bytes S)
      → load codec host path w ≡ ok (record { entries = before ++ old ∷ after })
      → All (λ f. is_named text f ≡ false) before
      → is_named text old ≡ true
      → find codec host path text w
        ≡ ok (old, length before, record { entries = before ++ old ∷ after })
  unfolding find
  find_first w loaded others same =
      let at : find_from 0 text (before ++ old ∷ after) ≡ some (old, length before) =
        find_from-append 0 text before old after others same
        ∙ ap (λ i. some (old, i)) (omega arith) in
      ground (arith, loaded, at)

  -- Where the first entry of a name stands in front of an active entry for a domain, `Remove` of
  -- that name leaves the domain active: what it disables is the first entry.
  remove_shadowed :
      (d : String) (w : World codec.Bytes S)
      → IsWhole host path
      → RoundTrips codec
      → load codec host path w ≡ ok (record { entries = before ++ old ∷ after })
      → All (λ f. is_named text f ≡ false) before
      → is_named text old ≡ true
      → has_active d after ≡ true
      → (s : Store) → load codec host path (remove codec host path text w).0 ≡ ok s
      → has_active d s.entries ≡ true
  unfolding remove
  remove_shadowed d w whole trip loaded others same on =
      rw (find_first w loaded others same, remove, set-append before old _ after)
        (save-Holds codec host path (λ es. has_active d es ≡ true) w _ (inl whole) trip
          (λ s h. cc (loaded, h, has_active-later d before old after on))
          (has_active-later d before _ after on))
