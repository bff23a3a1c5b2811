-- ===== src/Secrets/Reload.antt =====
-- Loading the generated secrets again.
use stack_forge.Base.{
  String, ◌≡◌, refl, ap, ◌∙◌, Bool, false, none, some, List, Option-cases, Result-cases, inl, inr,
  ok, ok-injective,
}
use stack_forge.Secrets.{Secrets, Vault, generate, load_or_generate}

-- Documented behaviour of the file of the secrets: what was written is what is read.
abbrev pub Keeps : {S : Type 0} → Vault S → Type 0
Keeps {S} vault =
    (sec : Secrets) (s : S)
    → (vault.write sec s).1 ≡ none
    → vault.read (vault.write sec s).0 ≡ some (ok sec)

-- What `LoadOrGenerate` returned is in the file.
load_or_generate-stored :
    {S : Type 0} (vault : Vault S) (keys : List String) (dashboard : Bool) (s : S) (sec : Secrets)
    (created : Bool)
    → Keeps vault
    → (load_or_generate vault keys dashboard s).1 ≡ ok (sec, created)
    → vault.read (load_or_generate vault keys dashboard s).0 ≡ some (ok sec)
unfolding load_or_generate
load_or_generate-stored vault keys dashboard s sec created keeps h =
    elim (Option-cases (vault.read s)) [
      | inr (r, there) ↦ elim (Result-cases r) [
        | inl (e, broken) ↦ cc (rw (load_or_generate, there, broken) at h)
        | inr (found, good) ↦
            let same = ok-injective (rw (load_or_generate, there, good) at h) in
            rw (load_or_generate, there, good) (there ∙ cc (good, ap (λ a. a.0) same))
      ]
      | inl missing ↦ elim (Result-cases (generate vault keys dashboard s).1) [
        | inl (e, broken) ↦ cc (rw (load_or_generate, missing, broken) at h)
        | inr (new, made) ↦
            let s' = (generate vault keys dashboard s).0 in
            elim (Option-cases (vault.write new s').1) [
              | inr (e, fault) ↦ cc (rw (load_or_generate, missing, made, fault) at h)
              | inl written ↦
                  let same = ok-injective (rw (load_or_generate, missing, made, written) at h) in
                  rw (load_or_generate, missing, made)
                    (keeps new s' written ∙ cc (ap (λ a. a.0) same))
            ]
      ]
    ]

load_or_generate-read :
    {S : Type 0} (vault : Vault S) (keys : List String) (dashboard : Bool) (s : S) (sec : Secrets)
    → vault.read s ≡ some (ok sec)
    → load_or_generate vault keys dashboard s ≡ (s, ok (sec, false))
unfolding load_or_generate
load_or_generate-read vault keys dashboard s sec there = rw (load_or_generate, there) refl

-- After `LoadOrGenerate` returned secrets, a second call returns the same ones, as loaded, and
-- changes nothing, whatever keys and flags it is given.
pub load_or_generate-again :
    {S : Type 0} (vault : Vault S) (keys keys' : List String) (dashboard dashboard' : Bool) (s : S)
    (sec : Secrets) (created : Bool)
    → Keeps vault
    → (load_or_generate vault keys dashboard s).1 ≡ ok (sec, created)
    → load_or_generate vault keys' dashboard' (load_or_generate vault keys dashboard s).0
      ≡ ((load_or_generate vault keys dashboard s).0, ok (sec, false))
load_or_generate-again vault keys keys' dashboard dashboard' s sec created keeps h =
    load_or_generate-read vault keys' dashboard' _ sec
      (load_or_generate-stored vault keys dashboard s sec created keeps h)
