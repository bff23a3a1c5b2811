-- ===== src/Host.antt =====
-- The machine that the command runs on: files, the clock, random identifiers and the faults of I/O.
-- Files are kept by path. An operation reads the clock and the faults from the host, so a theorem
-- over every host covers every fault; faults may depend on the path and on what is written.
use stack_forge.Base.{
  ℕ, String, Option, none, some, List, [], ◌∷◌, ◌≡◌, arith, if◌then◌else◌, ◌==◌, eq_iff, eq_refl,
  Result, ok,
}

-- `yaml.Marshal` and `yaml.Unmarshal`, or the same of encoding/json, at one type. The encoded form
-- is a type of its own, so nothing but these two functions can look into it.
pub record Codec (A : Type 0) : Type 1 where
  pub Bytes : Type 0
  pub encode : A → Result Bytes
  pub decode : Bytes → Result A

-- Documented behaviour of the two: what was encoded decodes to the value.
abbrev pub RoundTrips : {A : Type 0} → Codec A → Type 0
RoundTrips {A} c = (a : A) (b : c.Bytes) → c.encode a ≡ ok b → c.decode b ≡ ok a

abbrev pub Files : Type 0 → Type 0
Files B = List (String × B)

pub record Host (B : Type 0) : Type 0 where
  -- `os.ReadFile` of a file that exists
  pub read_fault : String → Option String
  -- `os.MkdirAll` of a directory
  pub mkdir_fault : String → Option String
  -- `os.WriteFile` of some contents
  pub write_fault : String → B → Option String
  -- What a failed `os.WriteFile` leaves in the file, which it empties before it writes; `none` where
  -- it could not open the file, which is then as it was
  pub torn : String → B → Option B
  -- `os.OpenFile` for appending
  pub append_fault : String → Option String
  -- `time.Now().UTC()`, in seconds; 0 is the zero time
  pub now : ℕ
  -- the n-th identifier of `newID` or `tokenID`: twelve random bytes in hexadecimal
  pub random_id : ℕ → String
  -- `os.Getenv`; the empty text where the variable is not set
  pub getenv : String → String

module _ {B : Type 0} where
  unfoldable pub read_path : String → Files B → Option B
  read_path path [] = none
  read_path path ((p, b) ∷ files) = if p == path then some b else read_path path files

  unfoldable pub write_path : String → B → Files B → Files B
  write_path path b [] = (path, b) ∷ []
  write_path path b ((p, c) ∷ files) =
      if p == path then (p, b) ∷ files else (p, c) ∷ write_path path b files

  -- No write of the file is cut off: one that fails leaves the file as it was.
  abbrev pub IsWhole : Host B → String → Type 0
  IsWhole host path = (b : B) → host.torn path b ≡ none

  -- `os.WriteFile`
  unfoldable pub write_file : Host B → String → B → Files B → Files B × Option String
  write_file host path b files = elim (host.write_fault path b) [
    | none ↦ (write_path path b files, none)
    | some e ↦
        (elim (host.torn path b) [ none ↦ files | some rest ↦ write_path path rest files ], some e)
  ]

  pub read_path-write_path :
      (path other : String) (b : B) (files : Files B)
      → read_path other (write_path path b files)
        ≡ (if path == other then some b else read_path other files)
  unfolding read_path write_path
  read_path-write_path path other b [] = ground (arith, eq_iff path other)
  read_path-write_path path other b ((p, c) ∷ files) = ground (
    arith,
    eq_iff path other,
    eq_iff p path,
    eq_iff p other,
    read_path-write_path path other b files,
  )

  pub read_path-write_path_self :
      (path : String) (b : B) (files : Files B) → read_path path (write_path path b files) ≡ some b
  read_path-write_path_self path b files = simp (read_path-write_path, eq_refl)
