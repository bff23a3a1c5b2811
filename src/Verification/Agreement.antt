-- ===== src/Verification/Agreement.antt =====
-- What a report of a verified cluster means.
use stack_forge.Base.{
  ℕ, String, ◌≡◌, ◌↔◌, refl, ap, true, inl, inr, Bool-cases, Option, none, some, List, [], ◌∷◌,
  arith, eqb, ◌==◌, eq_iff, Result, ok, Result-cases, ok-injective, ◌&>◌, restate,
}
use stack_forge.Paths.{join_path}
use stack_forge.Host.{Files}
use stack_forge.Remote.{Executor, Output}
use stack_forge.Inventory.{Inventory, Node}
use stack_forge.Inventory.Observe.{parse_observation}
use stack_forge.Backup.{Machine, Manifest}
use stack_forge.Backup.Run.{run_with_options}
use stack_forge.Maintenance.{build_plan}
use stack_forge.Verification.{
  Report, new_report, add, run_node_command, verify_node, verify_nodes, verify_local_state,
  verify_plans, run,
}
use stack_forge.Verification.Roles.{Adds, IsHealthy, check_node-Adds}

module _ {S : Type 0} (exec : Executor S) where
  -- A node answers at one of its addresses, and is healthy by what it says.
  abbrev pub IsVerified : Node → Output × (String × String) → Type 0
  IsVerified n answer = (answer.1.1 ≡ "") × IsHealthy n (parse_observation answer.0.stdout)

  -- Each node in its turn
  abbrev pub AreVerified : List Node → S → Type 0
  AreVerified [] s = Unit
  AreVerified (n ∷ nodes) s =
      IsVerified n (run_node_command exec n s).1 × AreVerified nodes (run_node_command exec n s).0

  add_ok-Adds :
      (node name message : String) {r : Report} → Adds Unit r (add node name "ok" message r)
  unfolding add
  add_ok-Adds node name message = record { iff = (λ h. (tt, h), λ (u, h). h) }

  verify_node-Adds :
      (n : Node) (answer : Output × (String × String)) (r : Report)
      → Adds (IsVerified n answer) r (verify_node exec n answer r)
  unfolding verify_node add
  verify_node-Adds n (res, (address, text)) r = elim (Bool-cases (text == "")) [
    | inl e ↦ rw e (
        restate (λ (u, h). ((eq_iff text "").0 e, h)) (λ (t, h). (tt, h))
          (add_ok-Adds _ _ _ &> check_node-Adds n (parse_observation res.stdout) _))
    | inr e ↦ rw e (record { iff = (λ h. cc h, λ ((t, h), k). cc (e, (eq_iff text "").1 t)) })
  ]

  verify_nodes-Adds :
      (nodes : List Node) (s : S) (r : Report)
      → Adds (AreVerified nodes s) r (verify_nodes exec nodes s r).1
  unfolding verify_nodes
  verify_nodes-Adds [] s r = record { iff = (λ h. (tt, h), λ (u, h). h) }
  verify_nodes-Adds (n ∷ nodes) s r =
      verify_node-Adds n _ r &> verify_nodes-Adds nodes (run_node_command exec n s).0 _

-- The file of secrets has mode 600, in octal digits.
verify_local_state-Adds :
    (stat : String → Files String → Result ℕ) (state_dir : String) (files : Files String)
    (r : Report)
    → Adds
        (stat (join_path (state_dir ∷ "generated-secrets.yaml" ∷ [])) files ≡ ok 384)
        r
        (verify_local_state stat state_dir files r)
unfolding verify_local_state add
verify_local_state-Adds stat state_dir files r =
    elim (Result-cases (stat (join_path (state_dir ∷ "generated-secrets.yaml" ∷ [])) files)) [
      | inl (e, fault) ↦ rw fault (record { iff = (λ h. cc h, λ (mode, h). cc (fault, mode)) })
      | inr (mode, answer) ↦ elim (Bool-cases (eqb mode 384)) [
        | inl e ↦
            rw (answer, verify_local_state, e)
              (record { iff = (λ h. (ap ok (ground arith), h), λ (u, h). h) })
        | inr e ↦
            rw (answer, verify_local_state, e)
              (record { iff = (λ h. cc h, λ (same, h). ground (arith, ok-injective same)) })
      ]
    ]

module _ (m : Machine) where
  -- The dry run of a backup that `Run` makes
  abbrev pub planned : String → String → Files String → Result Manifest
  planned state_dir cluster files =
      (run_with_options m
        (record { state_dir = state_dir; cluster = cluster; dry_run = true; executor = none }) files
        tt).1

  verify_plans-Adds :
      (state_dir cluster : String) (files : Files String) (r : Report)
      → Adds
          ((man : Manifest) × (planned state_dir cluster files ≡ ok man))
          r
          (verify_plans m state_dir cluster files r).1
  unfolding verify_plans add build_plan
  verify_plans-Adds state_dir cluster files r =
      elim (Result-cases (planned state_dir cluster files)) [
        | inl (e, fault) ↦
            rw fault (record { iff = (λ h. cc h, λ ((man, made), h). cc (fault, made)) })
        | inr (man, made) ↦ rw made (record { iff = (λ h. ((man, refl), h), λ (u, h). h) })
      ]

module _ {S : Type 0} (m : Machine) (stat : String → Files String → Result ℕ) where
  -- What `Run` takes for a cluster in order.
  abbrev pub IsInOrder : String → Option Inventory → Option (Executor S) → Files String → S → Type 0
  IsInOrder state_dir none exec files s = ⊥
  IsInOrder state_dir (some inv) none files s = ⊥
  IsInOrder state_dir (some inv) (some exec) files s =
      (stat (join_path (state_dir ∷ "generated-secrets.yaml" ∷ [])) files ≡ ok 384)
      × AreVerified exec inv.nodes s
      × ((man : Manifest) × (planned m state_dir inv.cluster_name files ≡ ok man))

  -- `Run` of the verification reports a cluster as safe exactly if an inventory and an executor are
  -- given, the file of secrets has mode 600, every node answers at one of its addresses and is
  -- healthy in each of its roles by what it says there, and the dry run of a backup succeeds.
  pub run_iff :
      (state_dir : String) (inv : Option Inventory) (exec : Option (Executor S))
      (files : Files String) (s : S)
      → ((run m stat state_dir inv exec files s).1.safe ≡ true)
        ↔ IsInOrder state_dir inv exec files s
  unfolding run new_report add
  run_iff state_dir none exec files s = (λ h. cc h, λ h. absurd h)
  run_iff state_dir (some inv) none files s = (λ h. cc h, λ h. absurd h)
  run_iff state_dir (some inv) (some exec) files s =
      let all =
        verify_local_state-Adds stat state_dir files (new_report inv.cluster_name)
        &> verify_nodes-Adds exec inv.nodes s _
        &> verify_plans-Adds m state_dir inv.cluster_name files _ in
      (
        λ h. let ((a, b), c) = (all.iff.0 h).0 in (a, b, c),
        λ (a, b, c). all.iff.1 (((a, b), c), refl),
      )
