-- ===== src/Remote.antt =====
-- Remote commands, internal/stackforge/remoteexec/remoteexec.go. What runs them is a parameter; its
-- state stands for the nodes.
use stack_forge.Base.{ℕ, String, Bool, not, Option, List, [], ◌∷◌, if◌then◌else◌, ◌==◌}
use stack_forge.Shell.{replace_all}

-- The timeout is in seconds.
pub record Command : Type 0 where
  pub command : String
  pub sudo : Bool
  pub timeout : ℕ
  pub secrets : List String

pub record Output : Type 0 where
  pub stdout : String
  pub stderr : String
  pub exit_code : ℕ

-- `Executor.Run` for a node's address: the output, and an error.
abbrev pub Executor : Type 0 → Type 0
Executor S = String → Command → S → S × (Output × Option String)

-- `Redact`
unfoldable pub redact : String → List String → String
redact s [] = s
redact s (secret ∷ secrets) =
    redact (if not (secret == "") then replace_all s secret "[REDACTED]" else s) secrets
