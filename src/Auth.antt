-- ===== src/Auth.antt =====
-- The API keys, internal/controlplane/auth/auth.go. `sha256.Sum256` is a parameter, and equal
-- digests compare as equal in `subtle.ConstantTimeCompare`.
pub mod Keys
use stack_forge.Base.{
  ℕ, String, Bool, true, false, not, List, [], ◌∷◌, any, is_empty, if◌then◌else◌, ◌==◌,
}
use stack_forge.Text.{trim_space, has_prefix, trim_prefix}

pub record Authenticator : Type 0 where
  pub hashes : List String

-- `http.Error(w, message, status)` of the middleware, or the answer of the handler behind it.
pub data Guarded (A : Type 0) : Type 0 where
  refused : (status : ℕ) (message : String) → Guarded A
  passed : A → Guarded A

module _ (digest : String → String) where
  -- `New`
  hashes_from : List String → List String
  hashes_from [] = []
  hashes_from (key ∷ keys) =
      let rest = hashes_from keys in
      if trim_space key == "" then rest else digest (trim_space key) ∷ rest

  unfoldable pub authenticator : List String → Authenticator
  unfolding hashes_from
  authenticator keys = record { hashes = hashes_from keys }

  -- `Authorize`
  unfoldable pub authorize : Authenticator → String → Bool
  authorize a header =
      if not (has_prefix header "Bearer ")
      then false
      else any (λ h. digest (trim_prefix header "Bearer ") == h) a.hashes

-- `Enabled`
unfoldable pub enabled : Authenticator → Bool
enabled a = not (is_empty a.hashes)

module _ (digest : String → String) {S A : Type 0} where
  -- `Middleware`, around a handler that runs on a state
  unfoldable pub middleware : Authenticator → String → (S → S × A) → S → S × Guarded A
  middleware a header next s =
      if not (enabled a)
      then (s, refused 403 "admin API keys are required")
      else if not (authorize digest a header)
      then (s, refused 401 "unauthorized")
      else let (s', answer) = next s in (s', passed answer)
