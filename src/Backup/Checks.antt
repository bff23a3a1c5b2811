-- ===== src/Backup/Checks.antt =====
-- The checksums of a backup, and the hiding of secrets.
use stack_forge.Base.{
  String, ◌≡◌, ◌↔◌, inl, inr, refl, true, none, some, [], ◌∷◌, All, Bool-cases, Result-cases, ok,
  ok-injective, ◌==◌, eq_iff,
}
use stack_forge.Paths.{join_path, base}
use stack_forge.Text.{trim_space, cut, is_set}
use stack_forge.Maps.{StringMap, lookup_or}
use stack_forge.Host.{Files}
use stack_forge.Backup.{Manifest, Machine, checksum, verify, verify_sums, redact_line}

module _ (m : Machine) where
  -- The file of an entry has the checksum of the entry.
  abbrev pub IsIntact : String → StringMap String → Files String → String × String → Type 0
  IsIntact path paths files (name, sum) =
      checksum m (join_path (path ∷ base (lookup_or "" name paths) ∷ [])) files ≡ ok sum

  verify_sums_iff :
      (path : String) (paths sums : StringMap String) (files : Files String)
      → (verify_sums m path paths sums files ≡ none) ↔ All (IsIntact path paths files) sums
  unfolding verify_sums
  verify_sums_iff path paths [] files = (λ h. tt, λ h. refl)
  verify_sums_iff path paths ((name, sum) ∷ sums) files =
      let place = join_path (path ∷ base (lookup_or "" name paths) ∷ []) in
      let (there, back) = verify_sums_iff path paths sums files in
      elim (Result-cases (checksum m place files)) [
        | inl (e, fault) ↦ (λ h. cc (rw (verify_sums, fault) at h), λ h. cc (h.0, fault))
        | inr (got, found) ↦ elim (Bool-cases (got == sum)) [
          | inr other ↦ (
            λ h. cc (rw (verify_sums, found, other) at h),
            λ h. cc (other, (eq_iff got sum).1 (ok-injective (cc (found, h.0)))),
          )
          | inl same ↦ (
            λ h. (cc (found, (eq_iff got sum).0 same), there (rw (verify_sums, found, same) at h)),
            λ h. rw (verify_sums, found, same) (back h.1),
          )
        ]
      ]

  -- `Verify` accepts a backup exactly if every file with a checksum in the manifest can be read in
  -- the directory of the backup and has that checksum.
  pub verify_iff :
      (path : String) (man : Manifest) (files : Files String)
      → (verify m path man files ≡ none) ↔ All (IsIntact path man.file_paths files) man.checksums
  unfolding verify
  verify_iff path man files = verify_sums_iff path man.file_paths man.checksums files

-- Lines that differ only in the value behind the first colon, which is not blank, are redacted to
-- one text: the copy of the secrets in a backup depends on no value.
pub redact_line-hides :
    (line line' key value value' : String)
    → cut ":" line ≡ some (key, value)
    → cut ":" line' ≡ some (key, value')
    → is_set (trim_space value) ≡ true
    → is_set (trim_space value') ≡ true
    → redact_line line ≡ redact_line line'
unfolding redact_line
redact_line-hides line line' key value value' c c' h h' = rw (redact_line, c, c', h, h') refl
