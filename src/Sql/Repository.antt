-- ===== src/Sql/Repository.antt =====
-- `Repository` of internal/controlplane/domain/domain.go, what an implementation owes its clients,
-- and what follows for every implementation.
use stack_forge.Base.{
  ℕ, String, ◌≡◌, ◌≢◌, ◌⊎◌, inl, inr, Bool, false, Option, none, some, List, [], ◌∷◌, All, Result,
  ok, err,
}
use stack_forge.Registry.{Domain, Verification}
use stack_forge.Sql.Catalogue.{
  Catalogue, add, drop_named, prove, find_named, has_name, IsUnique, add-IsUnique,
  drop_named-IsUnique, prove-IsUnique,
}

pub record Repository (S : Type 0) : Type 0 where
  pub create : Domain → Bool → S → S × Result Domain
  pub get : String → S → S × Option Domain
  pub delete : String → S → S × Result (Unit {0})
  pub verification_token : String → S → S × Result Verification
  pub mark_verified : String → String → S → S × Result (Unit {0})

-- The new domain takes a name that was free.
abbrev pub Created : Domain → Catalogue → Catalogue → Type 0
Created new c c' =
    (stored : Domain) × (stored.domain ≡ new.domain)
    × (stored.id ≡ new.id)
    × (has_name stored.domain c ≡ false)
    × (c' ≡ add stored c)

abbrev pub Deleted : String → Unit {0} → Catalogue → Catalogue → Type 0
Deleted key u c c' = (find_named key c ≢ none) × (c' ≡ drop_named key c)

-- A token is for the domain that the key finds.
abbrev pub Drawn : String → Verification → Catalogue → Catalogue → Type 0
Drawn key v c c' = (d : Domain) × (find_named key c ≡ some d) × (v.domain_id ≡ d.id) × (c' ≡ c)

abbrev pub Proven : ℕ → String → Unit {0} → Catalogue → Catalogue → Type 0
Proven now key u c c' = (d : Domain) × (find_named key c ≡ some d) × (c' ≡ prove now d.id c)

-- A call of a method.
pub data Call : Type 0 where
  call_create : Domain → Bool → Call
  call_get : String → Call
  call_delete : String → Call
  call_token : String → Call
  call_verify : String → String → Call

-- A new domain comes without a time of deletion.
abbrev pub IsFresh : Call → Type 0
IsFresh (call_create d w) = d.deleted_at ≡ none
IsFresh _ = Unit

-- The state that a call leaves.
unfoldable pub call : {S : Type 0} → Repository S → Call → S → S
call repo (call_create d w) s = (repo.create d w s).0
call repo (call_get key) s = (repo.get key s).0
call repo (call_delete key) s = (repo.delete key s).0
call repo (call_token key) s = (repo.verification_token key s).0
call repo (call_verify key token) s = (repo.mark_verified key token s).0

-- The state after some calls
unfoldable pub calls : {S : Type 0} → Repository S → List Call → S → S
calls repo [] s = s
calls repo (c ∷ cs) s = calls repo cs (call repo c s)

module _ {S : Type 0} (view : S → Catalogue) where
  -- The outcome of a method that began in `s`: an error that leaves the live domains as they were,
  -- or a value with the change that `Done` tells.
  abbrev pub Outcome :
      {A : Type 0} → (A → Catalogue → Catalogue → Type 0) → S → S × Result A → Type 0
  Outcome {A} Done s (s', r) =
      ((e : String) × (r ≡ err e) × (view s' ≡ view s))
      ⊎ ((a : A) × (r ≡ ok a) × Done a (view s) (view s'))

  pub record Implements (now : ℕ) (repo : Repository S) : Type 0 where
    pub creates :
        (d : Domain) (w : Bool) (s : S)
        → d.deleted_at ≡ none
        → Outcome Created s (repo.create d w s)
    pub gets :
        (key : String) (s : S)
        → (view (repo.get key s).0 ≡ view s)
          × (((repo.get key s).1 ≡ none) ⊎ ((repo.get key s).1 ≡ find_named key (view s)))
    pub deletes : (key : String) (s : S) → Outcome (Deleted key) s (repo.delete key s)
    pub draws : (key : String) (s : S) → Outcome (Drawn key) s (repo.verification_token key s)
    pub proves :
        (key token : String) (s : S) → Outcome (Proven now key) s (repo.mark_verified key token s)

  module _ {now : ℕ} {repo : Repository S} (laws : Implements now repo) where
    -- A call of a method keeps the names of the live domains apart.
    call-IsUnique :
        (c : Call) (s : S) → IsFresh c → IsUnique (view s) → IsUnique (view (call repo c s))
    unfolding call
    call-IsUnique (call_create d w) s f u = elim (laws.creates d w s f) [
      | inl (e, r, same) ↦ rw same u
      | inr (new, r, (stored, named, known, free, more)) ↦
          rw more (add-IsUnique stored (view s) free u)
    ]
    call-IsUnique (call_get key) s f u = let (same, found) = laws.gets key s in rw same u
    call-IsUnique (call_delete key) s f u = elim (laws.deletes key s) [
      | inl (e, r, same) ↦ rw same u
      | inr (done, r, (found, less)) ↦ rw less (drop_named-IsUnique key (view s) u)
    ]
    call-IsUnique (call_token key) s f u = elim (laws.draws key s) [
      | inl (e, r, same) ↦ rw same u
      | inr (v, r, (d, found, about, same)) ↦ rw same u
    ]
    call-IsUnique (call_verify key token) s f u = elim (laws.proves key token s) [
      | inl (e, r, same) ↦ rw same u
      | inr (done, r, (d, found, changed)) ↦ rw changed (prove-IsUnique now d.id (view s) u)
    ]

    -- So do any calls, one behind the other.
    pub calls-IsUnique :
        (cs : List Call) (s : S)
        → All IsFresh cs
        → IsUnique (view s)
        → IsUnique (view (calls repo cs s))
    unfolding calls
    calls-IsUnique [] s f u = u
    calls-IsUnique (c ∷ cs) s (f, fs) u =
        calls-IsUnique cs (call repo c s) fs (call-IsUnique c s f u)
