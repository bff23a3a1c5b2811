-- ===== src/Validation.antt =====
-- The validation of a cluster before its installation, internal/stackforge/validate/validate.go.
pub mod Checks
pub mod Agreement
use Prim.Native.String.{◌++◌ as ◌<>◌}
use stack_forge.Base.{
  ℕ, String, Bool, true, false, not, ◌&&◌, ◌||◌, Option, none, some, List, [], ◌∷◌, ◌++◌, leb,
  if◌then◌else◌, ◌==◌, Result, ok, err,
}
use stack_forge.Text.{trim_space, to_lower, has_prefix, contains, is_set}
use stack_forge.Shell.{replace_char}
use stack_forge.Maps.{StringMap, lookup_or}
use stack_forge.Remote.{Executor, Output}
use stack_forge.Config as Config
use stack_forge.Config.{Config, NodeConfig}
use stack_forge.Inventory.Observe.{parse_observation}
use stack_forge.Safety as Safety
use stack_forge.Firewall as Firewall

infixr 5 ◌&◌
-- Go's `+` on texts
abbrev ◌&◌ : String → String → String
s & t = s <> t

pub record Check : Type 0 where
  pub node : String
  pub name : String
  pub status : String
  pub message : String

pub record Report : Type 0 where
  pub cluster : String
  pub checks : List Check
  pub errors : List String
  pub warnings : List String
  pub safety_findings : Safety.Report
  pub safe : Bool
  pub dry_run : Bool
  pub live : Bool
  pub production : Bool

pub record Options : Type 0 where
  pub dry_run : Bool
  pub live : Bool
  pub production : Bool
  pub allow_no_firewall : Bool
  pub allow_example_config : Bool
  pub allow_public_ssh : Bool
  pub confirm_production : Bool

-- The report as `RunWithOptions` begins it
unfoldable pub new_report : String → Options → Report
new_report cluster o = record {
  cluster = cluster;
  checks = [];
  errors = [];
  warnings = [];
  safety_findings = record { safe = false; findings = [] };
  safe = true;
  dry_run = o.dry_run;
  live = o.live;
  production = o.production;
}

-- The closure `add` of `RunWithOptions`
unfoldable pub add : String → String → String → String → Report → Report
add node name status message r =
    let line = trim_space (node & " " & name & ": " & message) in
    record r {
      checks =
          r.checks
          ++ (record { node = node; name = name; status = status; message = message } ∷ []);
      safe = if status == "fail" then false else r.safe;
      errors = if status == "fail" then r.errors ++ (line ∷ []) else r.errors;
      warnings =
          if status == "fail"
          then r.warnings
          else if status == "warn"
          then r.warnings ++ (line ∷ [])
          else r.warnings;
    }

-- `if b { add(…, "ok", …) } else { add(…, status, …) }`
unfoldable pub add_either : String → String → Bool → String → String → String → Report → Report
add_either node name b good status bad r =
    if b then add node name "ok" good r else add node name status bad r

-- `if b { add(…, "fail", …) }`
unfoldable pub fail_on : Bool → String → String → String → Report → Report
fail_on b node name message r = if b then add node name "fail" message r else r

-- `shellEscape`
unfoldable pub shell_escape : String → String
shell_escape value = "'" & (replace_char "'" "'\\''" value) & "'"

-- `PreflightCommand`
unfoldable pub preflight_command : String → String → String
preflight_command private_interface public_interface =
    "set +e\necho \"os=$(. /etc/os-release 2>/dev/null; echo ${ID:-unknown}:${VERSION_ID:-unknown})\"\necho \"sudo=$(if [ \"$(id -u)\" = 0 ] || sudo -n true >/dev/null 2>&1; then echo ok; else echo fail; fi)\"\necho \"apt=$(if command -v apt-get >/dev/null 2>&1; then echo ok; else echo fail; fi)\"\necho \"systemd=$(if command -v systemctl >/dev/null 2>&1 && test -d /run/systemd/system; then echo ok; else echo fail; fi)\"\necho \"base_packages=$(missing=''; for p in curl jq ufw openssl iproute2 tar gzip ca-certificates gnupg lsb-release; do dpkg -s \"$p\" >/dev/null 2>&1 || missing=\"$missing,$p\"; done; echo \"${missing#,}\")\"\necho \"docker=$(if command -v docker >/dev/null 2>&1 && docker version --format '{{.Server.Version}}' >/dev/null 2>&1; then echo ok; else echo missing; fi)\"\necho \"docker_compose=$(if docker compose version >/dev/null 2>&1; then echo ok; else echo missing; fi)\"\necho \"disk_mb=$(df -Pm / 2>/dev/null | awk 'NR==2 {print $4}')\"\necho \"ram_mb=$(awk '/MemTotal/ {printf \"%d\", $2/1024}' /proc/meminfo 2>/dev/null)\"\necho \"firewall=$(if command -v ufw >/dev/null 2>&1; then echo ufw; elif command -v nft >/dev/null 2>&1; then echo nftables; else echo none; fi)\"\necho \"firewall_active=$(if command -v ufw >/dev/null 2>&1 && ufw status 2>/dev/null | grep -q active; then echo yes; else echo no; fi)\"\necho \"ports=$(ss -ltnH 2>/dev/null | awk '{print $4}' | tr '\\n' ',' | sed 's/,$//')\"\necho \"private_ip=$(hostname -I 2>/dev/null | awk '{print $1}')\"\necho \"private_interface=$(if [ -z "
    & (shell_escape private_interface)
    & " ] || ip link show dev "
    & (shell_escape private_interface)
    & " >/dev/null 2>&1; then echo ok; else echo fail; fi)\"\necho \"public_interface=$(if [ -z "
    & (shell_escape public_interface)
    & " ] || ip link show dev "
    & (shell_escape public_interface)
    & " >/dev/null 2>&1; then echo ok; else echo fail; fi)\""

-- `domainLooksReal`
unfoldable pub domain_looks_real : String → Bool
domain_looks_real value =
    let v = to_lower (trim_space value) in
    if (v == "")
      || (v == "localhost")
      || (v == "change-me")
      || contains v "example.com"
      || contains v "invalid"
    then false
    else contains v "."

-- `cloudflareEnabled`
unfoldable pub cloudflare_enabled : Config → Bool
cloudflare_enabled c =
    is_set (trim_space c.cloudflare.default_zone_id)
    && not (trim_space c.cloudflare.default_zone_id == "optional")

-- The systems that `parsePreflight` takes
unfoldable pub is_supported : String → Bool
is_supported os =
    has_prefix os "debian:12"
    || has_prefix os "debian:13"
    || has_prefix os "ubuntu:22.04"
    || has_prefix os "ubuntu:24.04"
    || has_prefix os "ubuntu:26.04"

-- The ports that `parsePreflight` wants free
abbrev pub required_ports : List String
required_ports = ":80" ∷ ":443" ∷ ":5432" ∷ ":8500" ∷ ":4646" ∷ ":8080" ∷ []

-- Its loop over them
unfoldable pub check_ports : String → String → List String → Report → Report
check_ports node listening [] r = r
check_ports node listening (port ∷ ports) r = check_ports node listening ports (
    fail_on (contains listening port) node ("port " & port)
      ("required port " & port & " is already listening") r)

-- What `parsePreflight` says of the firewall
unfoldable pub check_firewall : String → Bool → String → String → Report → Report
check_firewall node allow_none found active r =
    if found == "ufw"
    then add_either node "firewall" (active == "yes") "ufw active" "warn"
        "ufw is installed but inactive; install/firewall apply will enable it" r
    else if found == "nftables"
    then (if allow_none
        then add node "firewall" "warn"
            "nftables-only detected; StackForge firewall management bypassed" r
        else add node "firewall" "fail"
            "nftables-only detected; install ufw or pass --allow-no-firewall" r)
    else if allow_none
    then add node "firewall" "warn" "no supported firewall detected; bypass requested" r
    else add node "firewall" "fail" "ufw is required unless --allow-no-firewall is set" r

-- `parsePreflight` behind the reading of the lines; `parse_int` is `parseInt`, which scans a number.
module _ (parse_int : String → ℕ) where
  unfoldable pub check_facts : String → StringMap String → Bool → Report → Report
  check_facts node facts allow_none r =
      let value : String → String = λ k. lookup_or "" k facts in
      let r1 =
        add_either node "os" (is_supported (value "os")) (value "os") "fail"
          ("unsupported OS " & value "os") r in
      let r2 =
        add_either node "sudo" (value "sudo" == "ok") "non-interactive sudo/root available" "fail"
          "non-interactive sudo/root is required" r1 in
      let r3 =
        add_either node "package-manager" (value "apt" == "ok") "apt-get available" "fail"
          "apt-get is required" r2 in
      let r4 =
        add_either node "systemd" (value "systemd" == "ok") "systemd available" "fail"
          "systemd/systemctl is required" r3 in
      let r5 =
        add_either node "base-packages" (value "base_packages" == "") "required packages installed"
          "warn"
          ("missing packages can be installed by onboarding/install: " & value "base_packages")
          r4 in
      let r6 =
        add_either node "docker" (value "docker" == "ok") "Docker engine available" "warn"
          "Docker engine missing; onboarding can install it" r5 in
      let r7 =
        add_either node "docker-compose" (value "docker_compose" == "ok")
          "Docker Compose plugin available" "warn"
          "Docker Compose plugin missing; Docker preparation can install it" r6 in
      let r8 =
        add_either node "disk" (leb 20480 (parse_int (value "disk_mb")))
          (value "disk_mb" & " MiB free on /") "fail" "at least 20480 MiB free on / is required"
          r7 in
      let r9 =
        add_either node "ram" (leb 2048 (parse_int (value "ram_mb"))) (value "ram_mb" & " MiB RAM")
          "fail" "at least 2048 MiB RAM is required" r8 in
      let r10 = check_firewall node allow_none (value "firewall") (value "firewall_active") r9 in
      let r11 = check_ports node (value "ports") required_ports r10 in
      let r12 =
        add_either node "private-networking" (is_set (value "private_ip")) (value "private_ip")
          "fail" "could not observe private IP" r11 in
      let r13 =
        fail_on (value "private_interface" == "fail") node "private-interface"
          "configured private interface not found" r12 in
      fail_on (value "public_interface" == "fail") node "public-interface"
        "configured public interface not found" r13

  -- `parsePreflight`
  unfoldable pub parse_preflight : String → String → Bool → Report → Report
  parse_preflight node stdout allow_none r =
      check_facts node (parse_observation stdout) allow_none r

-- The checks that `RunWithOptions` only plans, by name and text
unfoldable pub planned_checks : Config → NodeConfig → List (String × String)
planned_checks c n =
    ("ssh", "would connect to " & n.address)
    ∷ ("os", "would verify Debian 12+ or Ubuntu 22.04/24.04")
    ∷ ("sudo", "would verify non-interactive sudo/root")
    ∷ ("systemd", "would verify systemd/systemctl")
    ∷ ("package-manager", "would verify apt-get")
    ∷ ("base-packages", "would verify required packages: curl jq ufw openssl iproute2 tar gzip")
    ∷ ("docker", "would detect Docker engine and Compose plugin")
    ∷ ("disk", "would verify at least 20 GiB free on /")
    ∷ ("ram", "would verify at least 2 GiB RAM")
    ∷ ("ports", "would verify required ports are free")
    ∷ ("firewall", "would require UFW and report whether it is active")
    ∷ ((if is_set c.network.private_interface
          then ("private-interface", "would verify " & c.network.private_interface) ∷ []
          else [])
        ++ (if is_set c.network.public_interface
            then ("public-interface", "would verify " & c.network.public_interface) ∷ []
            else []))

unfoldable pub add_planned : String → List (String × String) → Report → Report
add_planned node [] r = r
add_planned node ((name, text) ∷ more) r = add_planned node more (add node name "planned" text r)

-- The loop of `RunWithOptions` over the findings of the safety gate
unfoldable pub add_findings : List Safety.Finding → Report → Report
add_findings [] r = r
add_findings (f ∷ findings) r = add_findings findings (
    add "local" ("safety:" & f.code) (if f.severity == "error" then "fail" else "warn") f.message r)

-- The options of the gate
unfoldable pub safety_options : Options → Safety.Options
safety_options o = record {
  live = o.live;
  production = o.production;
  confirm_production = o.confirm_production;
  allow_example_config = o.allow_example_config;
  allow_public_ssh = o.allow_public_ssh;
}

-- The check of the firewall plan; the plan is dropped.
unfoldable pub check_plan : Config → Options → Report → Report
check_plan c o r = elim (Firewall.build_plan c false) [
  | ok _ ↦
      add "local" "firewall-plan" "ok" "UFW-only plan rejects public internal service exposure" r
  | err e ↦
      add_either "local" "firewall-plan" o.allow_no_firewall
        "UFW-only plan rejects public internal service exposure" "fail" e r
]

module _ (getenv : String → String) (c : Config) (o : Options) where
  -- The checks of `RunWithOptions` that look at the configuration only
  unfoldable pub check_config : Report → Report
  check_config r =
      let findings = Safety.check (some c) (safety_options o) in
      let r1 = add_findings findings.findings (record r { safety_findings = findings }) in
      let r2 =
        fail_on (not (domain_looks_real c.control_plane.domain)) "local" "dns-domain"
          "control_plane.domain must be a real non-placeholder domain" r1 in
      let r3 =
        fail_on (c.traefik.dashboard_enabled && not (domain_looks_real c.traefik.dashboard_domain))
          "local" "traefik-dashboard-domain"
          "traefik.dashboard_domain must be a real non-placeholder domain" r2 in
      let r4 =
        if cloudflare_enabled c
        then add_either "local" "cloudflare-token" (is_set (getenv c.cloudflare.api_token_env))
            (c.cloudflare.api_token_env & " is present") "fail"
            (c.cloudflare.api_token_env & " is required when Cloudflare is enabled") r3
        else r3 in
      check_plan c o r4

module _ {S : Type 0} (parse_int : String → ℕ) (c : Config) (o : Options) where
  -- The call of the executor for a node
  unfoldable pub ask : Executor S → NodeConfig → S → S × (Output × Option String)
  ask exec n s =
      exec n.address
        (record {
          command = preflight_command c.network.private_interface c.network.public_interface;
          sudo = false;
          timeout = 45;
          secrets = [];
        })
        s

  -- The body of the loop of `RunWithOptions` over the nodes, by whether it is a dry run; the
  -- executor may be nil.
  unfoldable pub visit_node : Bool → Option (Executor S) → NodeConfig → S → Report → S × Report
  visit_node true exec n s r = (s, add_planned n.name (planned_checks c n) r)
  visit_node false none n s r = (s, add_planned n.name (planned_checks c n) r)
  visit_node false (some exec) n s r =
      let (s', (res, fault)) = ask exec n s in
      (
        s',
        elim fault [
          | some e ↦ add n.name "ssh" "fail" e r
          | none ↦
              parse_preflight parse_int n.name res.stdout o.allow_no_firewall
                (add n.name "ssh" "ok" "SSH command executed" r)
        ],
      )

  -- The loop
  unfoldable pub check_nodes :
      Bool → Option (Executor S) → List NodeConfig → S → Report → S × Report
  check_nodes dry exec [] s r = (s, r)
  check_nodes dry exec (n ∷ nodes) s r =
      let (s', r') = visit_node dry exec n s r in check_nodes dry exec nodes s' r'

-- `RunWithOptions`; the configuration may be nil.
unfoldable pub run_with_options :
    {S : Type 0}
    → (String → ℕ)
    → (String → String)
    → Option Config
    → Option (Executor S)
    → Options
    → S
    → S × Report
run_with_options parse_int getenv none exec o s =
    (s, add "local" "config" "fail" "config is nil" (new_report "" o))
run_with_options parse_int getenv (some c) exec o s = elim (Config.validate c) [
  | err e ↦ (s, add "local" "config" "fail" e (new_report c.cluster.name o))
  | ok _ ↦
      check_nodes parse_int c o o.dry_run exec c.nodes s
        (check_config getenv c o (new_report c.cluster.name o))
]

-- `Run`
unfoldable pub run :
    {S : Type 0}
    → (String → ℕ)
    → (String → String)
    → Option Config
    → Option (Executor S)
    → Bool
    → Bool
    → S
    → S × Report
run parse_int getenv c exec dry_run allow_no_firewall s =
    run_with_options parse_int getenv c exec
      (record {
        dry_run = dry_run;
        live = false;
        production = false;
        allow_no_firewall = allow_no_firewall;
        allow_example_config = false;
        allow_public_ssh = false;
        confirm_production = false;
      })
      s
