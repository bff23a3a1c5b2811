-- ===== src/Pool/Audit.antt =====
-- The audit file of the pool's commands, `audit` of domainpool.go.
use stack_forge.Base.{◌+◌, String, none, some, [], ◌∷◌, ◌++◌, if◌then◌else◌, ◌==◌}
use stack_forge.Host.{Host}
use stack_forge.Pool.{Entry, AuditRecord, World}

-- Nothing without a path, and nothing if the file cannot be opened; the identifier is drawn before
-- the file is opened. The directory that is made for the file is not kept.
unfoldable pub audit :
    {B S : Type 0} → Host B → String → String → Entry → Entry → String → World B S → World B S
audit host path action before after text w =
    if path == ""
    then w
    else let line : AuditRecord = record {
      id = host.random_id w.drawn;
      action = action;
      resource_id = after.id;
      before = before;
      after = after;
      error = text;
      created_at = host.now;
    } in
      let drawn = record w { drawn = w.drawn + 1 } in
      elim (host.append_fault path) [
        | some m ↦ drawn
        | none ↦ record drawn { audits = w.audits ++ (path, line) ∷ [] }
      ]
