-- ===== src/Auth/Keys.antt =====
-- Which requests the middleware lets through.
use stack_forge.Base.{
  String, ◌≡◌, ◌≢◌, ◌↔◌, refl, true, false, ◌⊎◌, inl, inr, Bool-cases, List, [], ◌∷◌, any, Some,
  if◌then◌else◌, ◌==◌, eq_iff,
}
use stack_forge.Text.{trim_space, has_prefix, trim_prefix}
use stack_forge.Auth.{
  Authenticator, refused, passed, hashes_from, authenticator, authorize, enabled, middleware,
}

module _ (digest : String → String) where
  -- A configured key that is not blank and has the digest of the presented one.
  abbrev pub IsKey : String → String → Type 0
  IsKey presented key = (trim_space key ≢ "") × (digest presented ≡ digest (trim_space key))

  any_hashes_iff :
      (t : String) (keys : List String)
      → (any (λ h. digest t == h) (hashes_from digest keys) ≡ true) ↔ Some (IsKey t) keys
  unfolding hashes_from
  any_hashes_iff t [] = (λ h. cc, λ h. absurd h)
  any_hashes_iff t (key ∷ keys) = elim (Bool-cases (trim_space key == "")) [
    | inl blank ↦ rw blank (
      λ h. inr ((any_hashes_iff t keys).0 h),
      λ h. elim h [
        | inl (set, same) ↦ absurd (set ((eq_iff (trim_space key) "").0 blank))
        | inr there ↦ (any_hashes_iff t keys).1 there
      ],
    )
    | inr set ↦ rw set (elim (Bool-cases (digest t == digest (trim_space key))) [
      | inl same ↦ rw same (
        λ h. inl (
          (λ e. cc (set, (eq_iff (trim_space key) "").1 e)),
          (eq_iff (digest t) (digest (trim_space key))).0 same,
        ),
        λ h. refl,
      )
      | inr other ↦ rw other (
        λ h. inr ((any_hashes_iff t keys).0 h),
        λ h. elim h [
          | inl (_, same) ↦ cc (other, (eq_iff (digest t) (digest (trim_space key))).1 same)
          | inr there ↦ (any_hashes_iff t keys).1 there
        ],
      )
    ])
  ]

  -- `Authorize` accepts a header exactly when it is a bearer token whose digest is that of a
  -- configured key, trimmed, that is not blank.
  pub authorize_iff :
      (keys : List String) (header : String)
      → (authorize digest (authenticator digest keys) header ≡ true)
        ↔ ((has_prefix header "Bearer " ≡ true) × Some (IsKey (trim_prefix header "Bearer ")) keys)
  unfolding authorize authenticator
  authorize_iff keys header = elim (Bool-cases (has_prefix header "Bearer ")) [
    | inl bearer ↦ rw bearer (
      λ h. (refl, (any_hashes_iff (trim_prefix header "Bearer ") keys).0 h),
      λ (_, h). (any_hashes_iff (trim_prefix header "Bearer ") keys).1 h,
    )
    | inr plain ↦ rw plain (λ h. cc, λ (h, _). cc h)
  ]

  authorized-enabled :
      (hashes : List String) (header : String)
      → authorize digest (record { hashes = hashes }) header ≡ true
      → enabled (record { hashes = hashes }) ≡ true
  unfolding authorize enabled
  authorized-enabled [] header h = elim (Bool-cases (has_prefix header "Bearer ")) [
    | inl e ↦ cc (rw (e, authorize) at h)
    | inr e ↦ cc (rw (e, authorize) at h)
  ]
  authorized-enabled (x ∷ hashes) header h = refl

  -- The middleware runs the handler on an authorized request; on any other the state stays and the
  -- answer is 403 where no key is configured and 401 otherwise.
  pub middleware-IsGuarded :
      {S A : Type 0} (a : Authenticator) (header : String) (next : S → S × A) (s : S)
      → ((authorize digest a header ≡ true)
          × (middleware digest a header next s ≡ ((next s).0, passed (next s).1)))
        ⊎ ((authorize digest a header ≡ false)
            × (middleware digest a header next s ≡ (
              s,
              if enabled a
                  then refused 401 "unauthorized"
                  else refused 403 "admin API keys are required",
            )))
  unfolding middleware
  middleware-IsGuarded a header next s = elim (Bool-cases (authorize digest a header)) [
    | inl good ↦ inl (good, rw (authorized-enabled a.hashes header good, good) refl)
    | inr bad ↦
        inr (
          bad,
          elim (Bool-cases (enabled a)) [ inl on ↦ rw (on, bad) refl | inr off ↦ rw off refl ],
        )
  ]
