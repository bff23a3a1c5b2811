-- ===== src/Components.antt =====
-- The installation of single components and what a node says of them,
-- internal/stackforge/components/components.go.
pub mod Planned
use Prim.Native.String.{◌++◌ as ◌<>◌}
use stack_forge.Base.{
  ℕ, String, Bool, true, false, not, ◌&&◌, ◌||◌, Option, none, some, List, [], ◌∷◌, ◌++◌, map,
  is_empty, if◌then◌else◌, ◌==◌, Result, ok, err, ◌>>=◌,
}
use stack_forge.Text.{trim_space, to_lower, split, cut, is_set, quoted, is_one_of}
use stack_forge.Shell.{shell_quote}
use stack_forge.Maps.{StringMap, insert, lookup_or}
use stack_forge.Remote.{Executor}
use stack_forge.Inventory.{Inventory, Node}
use stack_forge.Inventory.Observe.{split_csv}

infixr 5 ◌&◌
-- Go's `+` on texts
abbrev ◌&◌ : String → String → String
s & t = s <> t

pub record InstallItem : Type 0 where
  pub node : String
  pub address : String
  pub component : String
  pub command : String
  pub dry_run : Bool
  pub status : String
  pub error : String

pub record Status : Type 0 where
  pub node : String
  pub component : String
  pub installed : Bool
  pub version : String
  pub systemd : String
  pub ports : List String
  pub warnings : List String
  pub raw : StringMap String

-- `normalizeComponent`
unfoldable pub normalize_component : String → String
normalize_component given =
    let c = to_lower (trim_space given) in
    if (c == "") || (c == "all")
    then "all"
    else if (c == "base") || (c == "packages")
    then "base-packages"
    else if (c == "postgresql") || (c == "database")
    then "postgres"
    else if c == "control-plane"
    then "stackforge-control-plane"
    else c

-- `BasePackagesCommand`
unfoldable pub base_packages_command : String
base_packages_command =
    let pkgs : String =
      "curl wget unzip ca-certificates gnupg lsb-release jq ufw systemd openssl iproute2 tar gzip apt-transport-https" in
    ("set -e; missing=''; for p in " & pkgs
      & "; do dpkg -s \"$p\" >/dev/null 2>&1 || missing=\"$missing $p\"; done; if [ -n \"$missing\" ]; then apt-get update && DEBIAN_FRONTEND=noninteractive apt-get install -y $missing; fi")

-- `DockerInstallCommand`
unfoldable pub docker_install_command : String → Bool → String
docker_install_command ssh_user add_user =
    let cmd : String =
      ("set -e; if command -v docker >/dev/null 2>&1 && docker version --format '{{.Server.Version}}' >/dev/null 2>&1; then exit 0; fi; "
        & "apt-get update && DEBIAN_FRONTEND=noninteractive apt-get install -y ca-certificates curl gnupg lsb-release; "
        & "install -m 0755 -d /etc/apt/keyrings; "
        & "curl -fsSL https://download.docker.com/linux/$(. /etc/os-release && echo \"$ID\")/gpg | gpg --dearmor -o /etc/apt/keyrings/docker.gpg.tmp; "
        & "mv /etc/apt/keyrings/docker.gpg.tmp /etc/apt/keyrings/docker.gpg; chmod 0644 /etc/apt/keyrings/docker.gpg; "
        & ". /etc/os-release; echo \"deb [arch=$(dpkg --print-architecture) signed-by=/etc/apt/keyrings/docker.gpg] https://download.docker.com/linux/$ID $VERSION_CODENAME stable\" > /etc/apt/sources.list.d/docker.list; "
        & "apt-get update && DEBIAN_FRONTEND=noninteractive apt-get install -y docker-ce docker-ce-cli containerd.io docker-buildx-plugin docker-compose-plugin; "
        & "systemctl enable docker && systemctl start docker && docker info >/dev/null") in
    if add_user && is_set ssh_user && not (ssh_user == "root")
    then cmd & "; usermod -aG docker " & (shell_quote ssh_user)
    else cmd

-- `InstallCommand`
unfoldable pub install_command : String → String → Result String
install_command component ssh_user =
    let c = normalize_component component in
    if c == "base-packages"
    then ok base_packages_command
    else if c == "docker"
    then ok (docker_install_command ssh_user false)
    else if c == "consul"
    then ok
        "command -v consul >/dev/null 2>&1 && systemctl is-active --quiet consul || { echo 'consul role install is managed by stackforge install/onboard because it needs cluster config and secrets' >&2; exit 2; }"
    else if c == "nomad"
    then ok
        "command -v nomad >/dev/null 2>&1 && systemctl is-active --quiet nomad || { echo 'nomad role install is managed by stackforge install/onboard because it needs cluster config and secrets' >&2; exit 2; }"
    else if c == "traefik"
    then ok
        "command -v traefik >/dev/null 2>&1 && systemctl is-active --quiet traefik || { echo 'traefik role install is managed by stackforge install/onboard because it needs routing config' >&2; exit 2; }"
    else if c == "postgres"
    then ok
        "systemctl is-active --quiet postgresql || { echo 'postgres role install is managed by stackforge install/onboard because it needs generated secrets' >&2; exit 2; }"
    else if c == "stackforge-control-plane"
    then ok
        "systemctl is-active --quiet stackforge-control-plane || { echo 'control-plane install is managed by stackforge install/onboard because it needs generated secrets' >&2; exit 2; }"
    else err ("unknown component " & (quoted component))

-- The loop of `componentsForNode` over the roles
unfoldable pub mark_roles : List String → StringMap Bool → StringMap Bool
mark_roles [] seen = seen
mark_roles (role ∷ roles) seen = mark_roles roles (
    if role == "docker-host"
    then insert "docker" true seen
    else if role == "nomad-client"
    then insert "nomad" true (insert "docker" true seen)
    else if role == "consul-server"
    then insert "consul" true seen
    else if role == "nomad-server"
    then insert "nomad" true seen
    else if role == "traefik"
    then insert "traefik" true seen
    else if role == "database"
    then insert "postgres" true seen
    else if role == "control-plane"
    then insert "stackforge-control-plane" true seen
    else seen)

-- The order of the components
abbrev pub ordered : List String
ordered = "docker" ∷ "consul" ∷ "nomad" ∷ "traefik" ∷ "postgres" ∷ "stackforge-control-plane" ∷ []

-- The loop of `componentsForNode` over them
unfoldable pub seen_ones : StringMap Bool → List String → List String
seen_ones seen [] = []
seen_ones seen (c ∷ cs) =
    let rest = seen_ones seen cs in if lookup_or false c seen then c ∷ rest else rest

-- `componentsForNode`
unfoldable pub components_for_node : Node → String → List String
components_for_node n requested =
    if not (requested == "all")
    then requested ∷ []
    else "base-packages" ∷ seen_ones (mark_roles n.roles (("base-packages", true) ∷ [])) ordered

-- The item of a plan
unfoldable pub new_item : Node → String → Bool → String → InstallItem
new_item n c dry_run cmd = record {
  node = n.name;
  address = if n.private_ip == "" then n.public_ip else n.private_ip;
  component = c;
  command = cmd;
  dry_run = dry_run;
  status = "";
  error = "";
}

-- The loop of `PlanInstall` over the components of a node
unfoldable pub plan_components : Node → Bool → List String → Result (List InstallItem)
plan_components n dry_run [] = ok []
plan_components n dry_run (c ∷ cs) = do
  cmd ← install_command c n.ssh.user
  rest ← plan_components n dry_run cs
  ok (new_item n c dry_run cmd ∷ rest)

-- `nodeName != "" && node.Name != nodeName`
abbrev pub is_left_out : String → Node → Bool
is_left_out name n = is_set name && not (n.name == name)

-- The loop of `PlanInstall` over the nodes
unfoldable pub plan_nodes : String → String → Bool → List Node → Result (List InstallItem)
plan_nodes component name dry_run [] = ok []
plan_nodes component name dry_run (n ∷ nodes) =
    let rest = plan_nodes component name dry_run nodes in
    if is_left_out name n then rest else (do
      own ← plan_components n dry_run (components_for_node n component)
      others ← rest
      ok (own ++ others))

-- `PlanInstall`; the inventory may be nil.
unfoldable pub plan_install : Option Inventory → String → String → Bool → Result (List InstallItem)
plan_install none component name dry_run = err "inventory is required"
plan_install (some inv) given name dry_run =
    let component = normalize_component given in
    plan_nodes component name dry_run inv.nodes >>= (λ out.
      if is_empty out
      then err ("no matching nodes for component=" & component & " node=" & name)
      else ok out)

module _ {S : Type 0} (exec : Executor S) where
  -- The loop of `RunInstall`
  unfoldable pub run_items : List InstallItem → S → S × (List InstallItem × Option String)
  run_items [] s = (s, ([], none))
  run_items (i ∷ items) s =
      let (s', (res, fault)) =
        exec i.address (record { command = i.command; sudo = true; timeout = 600; secrets = [] })
          s in
      elim fault [
        | some e ↦ (
          s',
          (
            record i {
              status = "failed";
              error = if trim_space res.stderr == "" then e else trim_space res.stderr;
            }
                ∷ items,
            some e,
          ),
        )
        | none ↦
            let (s'', (done, after)) = run_items items s' in
            (s'', (record i { status = "ok" } ∷ done, after))
      ]

-- `RunInstall`: the items and an error, which can stand beside them.
unfoldable pub run_install :
    {S : Type 0}
    → Option Inventory
    → Option (Executor S)
    → String
    → String
    → Bool
    → S
    → S × (List InstallItem × Option String)
run_install inv exec component name dry_run s = elim (plan_install inv component name dry_run) [
  | err e ↦ (s, ([], some e))
  | ok items ↦
      if dry_run
      then (s, (map (λ (i : InstallItem). record i { status = "dry-run" }) items, none))
      else elim exec [
        | none ↦ (s, (items, some "remote executor is required for live component install"))
        | some run ↦ run_items run items s
      ]
]

-- `StatusCommand`
unfoldable pub status_command : String
status_command =
    "set +e\necho \"docker_installed=$(command -v docker >/dev/null 2>&1 && echo yes || echo no)\"\necho \"docker_version=$(docker version --format '{{.Server.Version}}' 2>/dev/null || true)\"\necho \"docker_service=$(systemctl is-active docker 2>/dev/null || true)\"\necho \"docker_compose=$(docker compose version --short 2>/dev/null || true)\"\necho \"consul_installed=$(command -v consul >/dev/null 2>&1 && echo yes || echo no)\"\necho \"consul_version=$(consul version 2>/dev/null | head -n1 | awk '{print $2}')\"\necho \"consul_service=$(systemctl is-active consul 2>/dev/null || true)\"\necho \"nomad_installed=$(command -v nomad >/dev/null 2>&1 && echo yes || echo no)\"\necho \"nomad_version=$(nomad version 2>/dev/null | head -n1 | awk '{print $2}')\"\necho \"nomad_service=$(systemctl is-active nomad 2>/dev/null || true)\"\necho \"traefik_installed=$(command -v traefik >/dev/null 2>&1 && echo yes || echo no)\"\necho \"traefik_version=$(traefik version 2>/dev/null | awk '/Version:/ {print $2; exit}')\"\necho \"traefik_service=$(systemctl is-active traefik 2>/dev/null || true)\"\necho \"postgres_installed=$(command -v psql >/dev/null 2>&1 && echo yes || echo no)\"\necho \"postgres_version=$(sudo -u postgres psql -tAc 'SHOW server_version' 2>/dev/null | xargs || true)\"\necho \"postgres_service=$(systemctl is-active postgresql 2>/dev/null || true)\"\necho \"stackforge_control_plane_installed=$(systemctl list-unit-files stackforge-control-plane.service 2>/dev/null | grep -q stackforge-control-plane && echo yes || echo no)\"\necho \"stackforge_control_plane_service=$(systemctl is-active stackforge-control-plane 2>/dev/null || true)\"\necho \"listening=$(ss -ltnH 2>/dev/null | awk '{print $4}' | tr '\\n' ',' | sed 's/,$//')\""

-- `componentStatus`
unfoldable pub component_status :
    String → String → String → String → String → List String → StringMap String → Status
component_status node component installed version service ports raw = record {
  node = node;
  component = component;
  installed = installed == "yes";
  version = version;
  systemd = service;
  ports = ports;
  warnings =
      (if (installed == "yes") && is_set service && not (service == "active")
        then "installed but systemd service is not active" ∷ []
        else [])
      ++ (if (component == "docker")
            && (installed == "yes")
            && (trim_space (lookup_or "" "docker_compose" raw) == "")
          then "Docker Compose plugin is missing" ∷ []
          else []);
  raw = raw;
}

-- The loop of `ParseStatus` over the lines
unfoldable pub status_lines : List String → StringMap String → StringMap String
status_lines [] m = m
status_lines (line ∷ lines) m = elim (cut "=" (trim_space line)) [
  | none ↦ status_lines lines m
  | some (key, value) ↦ status_lines lines (insert key value m)
]

-- `ParseStatus`
unfoldable pub parse_status : String → String → List Status
parse_status node stdout =
    let facts = status_lines (split "\n" stdout) [] in
    let value : String → String = λ k. lookup_or "" k facts in
    let ports = split_csv (value "listening") in
    component_status node "docker" (value "docker_installed") (value "docker_version")
      (value "docker_service") ports facts
    ∷ component_status node "consul" (value "consul_installed") (value "consul_version")
        (value "consul_service") ports facts
    ∷ component_status node "nomad" (value "nomad_installed") (value "nomad_version")
        (value "nomad_service") ports facts
    ∷ component_status node "traefik" (value "traefik_installed") (value "traefik_version")
        (value "traefik_service") ports facts
    ∷ component_status node "postgres" (value "postgres_installed") (value "postgres_version")
        (value "postgres_service") ports facts
    ∷ component_status node "stackforge-control-plane" (value "stackforge_control_plane_installed")
        "" (value "stackforge_control_plane_service") ports facts
    ∷ []
