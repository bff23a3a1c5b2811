-- ===== src/Shell.antt =====
-- Quoting for a shell: `shellQuote` of install.go, backup.go and components.go, and `shellValue` of
-- internal/stackforge/secrets/secrets.go, which are one text in Go. `shellQuote` of deploy.go and
-- `shellEscape` of validate.go escape a single quote in another way.
use Prim.Native.String.{◌++◌ as ◌<>◌, count}
use text.Mathlib.TextLemmas.{nil-append, cons-append, append-nil, append_assoc}
use stack_forge.Base.{
  ℕ, zero, suc, ◌-◌, Char, code, String, ◌≡◌, refl, ap, ◌∙◌, Bool, true, false, not, ◌&&◌,
  Bool-cases, inl, inr, arith, eqb, if◌then◌else◌,
}
use stack_forge.Text.{has_prefix}
use stack_forge.Text.Split.{eqb-code}

-- `strings.ReplaceAll(s, old, new)` for a text `old` of one character
unfoldable pub replace_char : Char → String → String → String
replace_char old new String.[] = ""
replace_char old new (String.◌∷◌ c s) =
    (if eqb (code c) (code old) then new else String.◌∷◌ c "") <> replace_char old new s

-- The scan of `strings.ReplaceAll(s, old, new)`, which still has to skip some characters.
unfoldable pub replace_from : ℕ → String → String → String → String
replace_from skip old new String.[] = ""
replace_from (suc skip) old new (String.◌∷◌ c s) = replace_from skip old new s
replace_from zero old new (String.◌∷◌ c s) = elim (has_prefix (String.◌∷◌ c s) old) [
  | true ↦ new <> replace_from (count old - 1) old new s
  | false ↦ String.◌∷◌ c (replace_from zero old new s)
]

-- `strings.ReplaceAll(s, old, new)` for a text `old` that is not empty
unfoldable pub replace_all : String → String → String → String
replace_all s old new = replace_from zero old new s

-- `shellQuote` and `shellValue`
unfoldable pub shell_quote : String → String
shell_quote s = "'" <> (replace_char "'" "'\"'\"'" s <> "'")

apart : (w : String) → "'\"'\"'" <> w ≡ "'" <> ("\"'\"" <> ("'" <> w))
apart w = append_assoc "'" "\"'\"'" w ∙ ap (λ v. "'" <> v) (append_assoc "\"'\"" "'" w)

cons-quote : (w : String) → "'" <> w ≡ String.◌∷◌ "'" w
cons-quote w = rw (cons-append "'" "" w, nil-append) refl

-- Concatenations, as one list of characters.
ruleset flat = (nil-append, cons-append, append-nil, append_assoc, apart, cons-quote)

-- A text that may stand between single quotes.
abbrev pub is_plain : String → Bool
is_plain String.[] = true
is_plain (String.◌∷◌ c s) = not (eqb (code c) (code "'")) && is_plain s

-- How a shell reads one word of quoted parts: a part in single quotes stands for itself, and a
-- single quote in double quotes for itself.
pub data Reads : String → String → Type 0 where
  reads_end : Reads "" ""
  reads_single :
      (part word value : String)
      → is_plain part ≡ true
      → Reads word value
      → Reads ("'" <> (part <> ("'" <> word))) (part <> value)
  reads_double : (word value : String) → Reads word value → Reads ("\"'\"" <> word) ("'" <> value)

is_plain-append :
    (s : String) (c : Char)
    → is_plain s ≡ true
    → eqb (code c) (code "'") ≡ false
    → is_plain (s <> String.◌∷◌ c "") ≡ true
is_plain-append String.[] c h k = rw nil-append (ground arith)
is_plain-append (String.◌∷◌ b s) c h k =
    rw cons-append (let rest = is_plain-append s c (ground arith) k in ground arith)

-- The rest of a quoted text, behind the part that is already read.
Reads-from :
    (part s : String)
    → is_plain part ≡ true
    → Reads ("'" <> (part <> (replace_char "'" "'\"'\"'" s <> "'"))) (part <> s)
unfolding replace_char
Reads-from part String.[] h = reads_single part "" "" h reads_end
Reads-from part (String.◌∷◌ c s) h = elim (Bool-cases (eqb (code c) (code "'"))) [
  | inl quote ↦
      let rest = reads_double _ _ (Reads-from "" s refl) in
      let all = reads_single part _ _ h rest in
      rw (quote, eqb-code c "'" quote) (simp flat (simp flat at all))
  | inr other ↦
      let all = Reads-from (part <> String.◌∷◌ c "") s (is_plain-append part c h other) in
      rw other (simp flat (simp flat at all))
]

-- A shell reads a quoted text back as the text itself, whatever characters it has.
pub shell_quote-Reads : (s : String) → Reads (shell_quote s) s
unfolding shell_quote
shell_quote-Reads s =
    let all : Reads ("'" <> ("" <> (replace_char "'" "'\"'\"'" s <> "'"))) ("" <> s) =
      Reads-from "" s refl in
    simp flat (simp flat at all)
