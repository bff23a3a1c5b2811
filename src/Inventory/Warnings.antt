-- ===== src/Inventory/Warnings.antt =====
-- The warnings of an inventory, under `Normalize` and the `Mark` functions.
use stack_forge.Base.{
  ℕ, String, ◌≡◌, ◌≢◌, refl, sym, ◌∙◌, Bool, true, false, Bool-cases, inl, inr, List, [], ◌∷◌, ◌++◌,
  any, append_assoc, append-nil, ◌==◌, eq_iff,
}
use stack_forge.Text.{trim_space}
use stack_forge.Text.Laws.{trim_space_idem}
use stack_forge.Inventory.{
  Inventory, Node, is_persistent_warning, append_warning, append_warnings, dedupe_warnings,
  normalize_node, normalize_nodes, normalize, or_blank, mark_step_success, mark_step_failure,
  mark_backup, mark_restore, mark_health_check,
}

-- A warning that may stand in the list.
abbrev pub IsKept : String → Type 0
IsKept w = (trim_space w ≡ w) × (w ≢ "") × (is_persistent_warning w ≡ true)

abbrev pub has : List String → String → Bool
has ws w = any (λ existing. existing == w) ws

-- The warnings may be appended to `out` one by one.
abbrev pub IsCleanAfter : List String → List String → Type 0
IsCleanAfter out [] = Unit
IsCleanAfter out (w ∷ ws) = IsKept w × (has out w ≡ false) × IsCleanAfter (out ++ (w ∷ [])) ws

abbrev pub IsClean : List String → Type 0
IsClean ws = IsCleanAfter [] ws

append_warning_new :
    (out : List String) (w : String)
    → IsKept w
    → has out w ≡ false
    → append_warning out w ≡ out ++ (w ∷ [])
unfolding append_warning
append_warning_new out w (trimmed, set, persistent) new = elim (Bool-cases (w == "")) [
  | inl e ↦ absurd (set ((eq_iff w "").0 e))
  | inr e ↦ rw (trimmed, e, persistent, new) refl
]

-- Appending what is clean appends all of it.
append_warnings_clean :
    (out ws : List String) → IsCleanAfter out ws → append_warnings out ws ≡ out ++ ws
unfolding append_warnings append_warning
append_warnings_clean out [] h = sym (append-nil out)
append_warnings_clean out (w ∷ ws) ((trimmed, set, persistent), new, h) =
    rw (append_warning_new out w (trimmed, set, persistent) new)
      (append_warnings_clean (out ++ (w ∷ [])) ws h ∙ append_assoc out (w ∷ []) ws)

IsCleanAfter-snoc :
    (out ws : List String) (w : String)
    → IsCleanAfter out ws
    → IsKept w
    → has (out ++ ws) w ≡ false
    → IsCleanAfter out (ws ++ (w ∷ []))
IsCleanAfter-snoc out [] w h kept new = (kept, rw (← append-nil out) new, tt)
IsCleanAfter-snoc out (v ∷ ws) w (k, fresh, h) kept new = (
  k,
  fresh,
  IsCleanAfter-snoc (out ++ (v ∷ [])) ws w h kept (rw (append_assoc out (v ∷ []) ws) new),
)

append_warning-IsClean :
    (ws : List String) (w : String) → IsClean ws → IsClean (append_warning ws w)
unfolding append_warning
append_warning-IsClean ws w h = elim (Bool-cases (trim_space w == "")) [
  | inl blank ↦ rw blank h
  | inr set ↦ elim (Bool-cases (is_persistent_warning (trim_space w))) [
    | inr passing ↦ rw (set, passing) h
    | inl persistent ↦ elim (Bool-cases (has ws (trim_space w))) [
      | inl old ↦ rw (set, persistent, old) h
      | inr new ↦
          rw (set, persistent, new)
            (IsCleanAfter-snoc [] ws (trim_space w) h
              (trim_space_idem w, λ e. cc (set, (eq_iff (trim_space w) "").1 e), persistent) new)
    ]
  ]
]

append_warnings-IsClean : (ws added : List String) → IsClean ws → IsClean (append_warnings ws added)
unfolding append_warnings
append_warnings-IsClean ws [] h = h
append_warnings-IsClean ws (w ∷ added) h =
    append_warnings-IsClean (append_warning ws w) added (append_warning-IsClean ws w h)

pub dedupe_warnings-IsClean : (ws : List String) → IsClean (dedupe_warnings ws)
unfolding dedupe_warnings
dedupe_warnings-IsClean ws = append_warnings-IsClean [] ws tt

dedupe_warnings_idem :
    (ws : List String) → dedupe_warnings (dedupe_warnings ws) ≡ dedupe_warnings ws
unfolding dedupe_warnings
dedupe_warnings_idem ws =
    append_warnings_clean [] (append_warnings [] ws) (dedupe_warnings-IsClean ws)

or_blank_idem : (s d : String) → or_blank (or_blank s d) d ≡ or_blank s d
or_blank_idem s d = elim (Bool-cases (trim_space s == "")) [
  | inl e ↦ rw e (elim (Bool-cases (trim_space d == "")) [ inl f ↦ rw f refl | inr f ↦ rw f refl ])
  | inr e ↦ rw (e, e) refl
]

normalize_nodes_idem :
    (nodes : List Node) → normalize_nodes (normalize_nodes nodes) ≡ normalize_nodes nodes
unfolding normalize_nodes normalize_node
normalize_nodes_idem [] = refl
normalize_nodes_idem (n ∷ nodes) =
    simp (or_blank_idem, dedupe_warnings_idem, normalize_nodes_idem nodes)

-- Normalizing an inventory twice is normalizing it once.
normalize_idem : (inv : Inventory) → normalize (normalize inv) ≡ normalize inv
unfolding normalize
normalize_idem inv = simp (or_blank_idem, dedupe_warnings_idem, normalize_nodes_idem)

-- A change that a `Mark` function makes.
pub data IsMark : (Inventory → Inventory) → Type 0 where
  success : (step : String) → IsMark (mark_step_success step)
  failure : (step warning : String) → IsMark (mark_step_failure step warning)
  backup : (id : String) (ws : List String) → IsMark (mark_backup id ws)
  restore : (id : String) (ws : List String) → IsMark (mark_restore id ws)
  health : (now : ℕ) (status : String) (ws : List String) → IsMark (mark_health_check now status ws)

-- After any `Mark` function, and from any inventory, each warning is trimmed, set and persistent,
-- and none stands in the list twice.
pub mark-IsClean :
    (f : Inventory → Inventory) → IsMark f → (inv : Inventory) → IsClean (f inv).warnings
unfolding mark_step_success mark_step_failure mark_backup mark_restore mark_health_check normalize
mark-IsClean _ (success step) inv = dedupe_warnings-IsClean inv.warnings
mark-IsClean _ (failure step w) inv =
    append_warning-IsClean (dedupe_warnings inv.warnings) w (dedupe_warnings-IsClean inv.warnings)
mark-IsClean _ (backup id ws) inv =
    append_warnings-IsClean (dedupe_warnings inv.warnings) ws (dedupe_warnings-IsClean inv.warnings)
mark-IsClean _ (restore id ws) inv =
    append_warnings-IsClean (dedupe_warnings inv.warnings) ws (dedupe_warnings-IsClean inv.warnings)
mark-IsClean _ (health now status ws) inv =
    append_warnings-IsClean (dedupe_warnings inv.warnings) ws (dedupe_warnings-IsClean inv.warnings)
