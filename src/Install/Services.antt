-- ===== src/Install/Services.antt =====
-- The steps for one node in `Plan` of internal/stackforge/install/install.go.
use Prim.Native.String.{◌++◌ as ◌<>◌}
use stack_forge.Base.{
  String, Bool, true, false, ◌&&◌, ◌||◌, some, List, [], ◌∷◌, if◌then◌else◌, ◌==◌,
}
use stack_forge.Text.{trim_space, join, is_set, equal_fold}
use stack_forge.Text.Number.{show}
use stack_forge.Shell.{shell_quote}
use stack_forge.Config.{NodeConfig}
use stack_forge.Firewall as Firewall
use stack_forge.Secrets.{Secrets, values, env}
use stack_forge.Install.{Step, Options, World, empty_step}
use stack_forge.Install.Commands.{
  base_packages_command, install_consul_command, install_nomad_command, install_traefik_command,
  install_postgres_command, install_control_plane_command, ufw_detect_command, backup_command,
  verify_ufw_command,
}
use stack_forge.Install.Plan.{
  files_for_component, firewall_dry_run, check, run, verify, new_id, remote_step,
}

infixr 5 ◌&◌
-- Go's `+` on texts
abbrev ◌&◌ : String → String → String
s & t = s <> t

module _ {S : Type 0} (w : World S) (opts : Options S) where
  -- The identifier, node and key that every step of a node has.
  unfoldable pub base_step : NodeConfig → String → Step S
  base_step n tag = record empty_step {
    id = n.name & ":" & tag;
    node = n.name;
    idempotency_key = n.name & "/" & tag;
  }

  -- The three steps that every node has
  unfoldable pub first_steps : NodeConfig → List (Step S)
  first_steps n =
      record (base_step n "ssh") {
        name = "Validate SSH connectivity";
        dry_run_description = "connect via SSH and run true";
        check = check w opts n.address "true" false;
        apply = run w opts n.address "true" false;
        verify = some (verify w opts n.address "true" false);
        rollback = "Fix SSH credentials/network, then run stackforge install --resume.";
        failure_recovery = "Confirm the node address, SSH user, port, and key path.";
      }
      ∷ record (base_step n "os") {
        name = "Detect supported OS";
        dry_run_description = "read /etc/os-release and reject unsupported Debian/Ubuntu releases";
        check =
            check w opts n.address
              "test -r /etc/os-release && . /etc/os-release && case \"$ID:$VERSION_ID\" in debian:12*|debian:13*|ubuntu:22.04|ubuntu:24.04|ubuntu:26.04) exit 0;; *) exit 1;; esac"
              false;
        apply =
            run w opts n.address "grep -E '^(ID|VERSION_ID|PRETTY_NAME)=' /etc/os-release" false;
        verify = some (
            verify w opts n.address
              "test -r /etc/os-release && . /etc/os-release && case \"$ID:$VERSION_ID\" in debian:12*|debian:13*|ubuntu:22.04|ubuntu:24.04|ubuntu:26.04) exit 0;; *) exit 1;; esac"
              false);
        rollback = "Install Debian 12+ or Ubuntu 22.04/24.04/26.04 before resuming.";
        failure_recovery =
            "Use a supported Debian/Ubuntu node or update the config to target a supported node.";
      }
      ∷ record (base_step n "base-packages") {
        name = "Install base packages";
        dry_run_description =
            "install only missing base packages: curl wget unzip ca-certificates gnupg lsb-release jq ufw systemd openssl iproute2 tar gzip";
        check =
            check w opts n.address
              "for p in curl wget unzip ca-certificates gnupg lsb-release jq ufw systemd openssl iproute2 tar gzip; do dpkg -s \"$p\" >/dev/null 2>&1 || exit 1; done"
              false;
        apply = run w opts n.address base_packages_command true;
        verify = some (
            verify w opts n.address
              "command -v curl >/dev/null && command -v jq >/dev/null && command -v ufw >/dev/null && command -v systemctl >/dev/null"
              false);
        rollback = "Base packages are non-destructive; fix apt errors and resume.";
        failure_recovery = "Inspect apt locks and package repository errors on the node.";
      }
      ∷ []

  -- The step for the firewall
  unfoldable pub firewall_step : Firewall.Plan → NodeConfig → Step S
  firewall_step plan n = record (base_step n "firewall") {
    name = "Configure firewall";
    role = "firewall";
    rollback_id = new_id w opts n.name "firewall";
    dry_run_description = firewall_dry_run plan;
    check = check w opts n.address ufw_detect_command true;
    apply =
        run w opts n.address
          ("command -v ufw >/dev/null || { echo 'ufw is required unless --allow-no-firewall is set' >&2; exit 1; }; "
            & backup_command
            & " && "
            & join " && " (Firewall.ufw_commands plan))
          true;
    verify = some (verify w opts n.address verify_ufw_command true);
    rollback =
        "Firewall rollback is not applied automatically because it can cut off SSH. Use console access and restore the saved ufw status from /var/lib/stackforge/firewall before retrying.";
    failure_recovery =
        "Use console access if SSH is blocked, then rerun stackforge install --resume.";
    changed_files = "/etc/ufw" ∷ [];
    backup_files = "/var/lib/stackforge/firewall/ufw-before-<timestamp>.txt" ∷ [];
  }

  -- `serviceStep`
  unfoldable pub service_step :
      Secrets
      → NodeConfig
      → String
      → String
      → String
      → String
      → String
      → String
      → String
      → String
      → Step S
  service_step sec n component role display check_command apply_command verify_command rollback
        recovery =
      let files = files_for_component component in
      remote_step w opts n.name n.address
        (record (base_step n component) {
          name = "Install " & display;
          role = role;
          dry_run_description = "install/configure/start/verify " & display;
          rollback = rollback;
          failure_recovery = recovery;
          changed_files = files.0;
          backup_files = files.1;
        })
        check_command apply_command verify_command (values sec)

  -- `consulStep`
  unfoldable pub consul_step : Secrets → NodeConfig → String → Step S
  consul_step sec n role =
      let token = sec.consul_bootstrap_token in
      let verify_command : String =
        "systemctl is-active --quiet consul && consul version >/dev/null && curl -fsS http://127.0.0.1:8500/v1/status/leader >/dev/null && curl -fsS http://127.0.0.1:8500/v1/status/peers >/dev/null"
        & (if opts.config.consul.acl_enabled
            then " && curl -fsS -H "
              & (shell_quote ("X-Consul-Token: " & token))
              & " http://127.0.0.1:8500/v1/acl/token/self >/dev/null"
            else "") in
      service_step sec n "consul" role "Consul" "consul version"
        (install_consul_command w.base64 opts.config sec) verify_command
        "Restore the most recent /etc/consul.d backup, then restart consul."
        "Inspect journalctl -u consul and /etc/consul.d before resuming."

  -- `nomadStep`
  unfoldable pub nomad_step : Secrets → NodeConfig → String → Step S
  nomad_step sec n role =
      let token = sec.nomad_bootstrap_token in
      let verify_command : String =
        "systemctl is-active --quiet nomad && nomad version >/dev/null && curl -fsS http://127.0.0.1:4646/v1/status/leader >/dev/null"
        & (if role == "nomad-client" || opts.config.nomad.client_enabled
            then " && curl -fsS http://127.0.0.1:4646/v1/nodes >/dev/null"
            else "")
        & (if opts.config.nomad.acl_enabled && is_set token
            then " && NOMAD_TOKEN=" & shell_quote token & " nomad acl token self >/dev/null"
            else "") in
      service_step sec n "nomad" role "Nomad" "nomad version"
        (install_nomad_command w.base64 opts.config role sec) verify_command
        "Restore the most recent /etc/nomad.d backup, then restart nomad."
        "Inspect journalctl -u nomad and /etc/nomad.d before resuming."

  -- `traefikStep`
  unfoldable pub traefik_step : Secrets → NodeConfig → Step S
  traefik_step sec n =
      let dashboard_guard : String =
        if opts.config.traefik.dashboard_enabled
        then "test "
          & shell_quote (if opts.config.traefik.dashboard_basic_auth then "true" else "false")
          & " = 'true'"
        else "true" in
      service_step sec n "traefik" "traefik" "Traefik" "traefik version"
        (install_traefik_command w.base64 opts.config)
        ("systemctl is-active --quiet traefik && ss -ltn '( sport = :80 or sport = :443 )' | grep -Eq ':80|:443' && "
          & dashboard_guard)
        "Restore the most recent /etc/traefik backup, then restart traefik."
        "Inspect journalctl -u traefik and validate dashboard exposure before resuming."

  -- `postgresStep`
  unfoldable pub postgres_step : Secrets → NodeConfig → Step S
  postgres_step sec n =
      service_step sec n "postgres" "database" "PostgreSQL"
        "systemctl is-active --quiet postgresql && sudo -u postgres psql -tAc \"SELECT 1 FROM pg_database WHERE datname='stackforge'\" | grep -q 1"
        (install_postgres_command w.base64 sec)
        "systemctl is-active --quiet postgresql && sudo -u postgres psql -d stackforge -tAc 'SELECT 1' | grep -q 1 && ! ss -ltnp | grep -E ':5432 .*0\\.0\\.0\\.0|:5432 .*:::'"
        "Do not drop existing databases. Restore PostgreSQL config backup if bind settings were changed."
        "Inspect journalctl -u postgresql and pg_hba/postgresql.conf; rerun after fixing connectivity."

  -- The database of `controlPlaneStep`, and whether it is PostgreSQL
  unfoldable pub control_plane_database : Secrets → String × Bool
  control_plane_database sec =
      if equal_fold (trim_space opts.config.database.engine) "sqlite"
      then ("sqlite:///var/lib/stackforge/stackforge-controlplane.db", false)
      else (
        "postgres://stackforge:" & sec.database_password
            & "@127.0.0.1:5432/stackforge?sslmode=disable",
        true,
      )

  -- `controlPlaneStep`
  unfoldable pub control_plane_step : Secrets → NodeConfig → Step S
  control_plane_step sec n =
      let database_url : String = (control_plane_database sec).0 in
      let requires_postgres = (control_plane_database sec).1 in
      let api_port = opts.config.control_plane.api_port in
      let expected_line : String = "DATABASE_URL=" & shell_quote database_url in
      let check_command : String =
        "systemctl list-unit-files stackforge-control-plane.service | grep -q stackforge-control-plane && systemctl is-active --quiet stackforge-control-plane"
        & (if is_set database_url
            then " && grep -Fq " & (shell_quote expected_line) & " /etc/stackforge/stackforge.env"
            else "") in
      let verify_command : String =
        "systemctl is-active --quiet stackforge-control-plane && curl -fsS http://127.0.0.1:"
        & (show api_port)
        & "/health >/dev/null && test \"$(curl -s -o /dev/null -w '%{http_code}' http://127.0.0.1:"
        & (show api_port)
        & "/api/v1/domains)\" = '401'" in
      remote_step w opts n.name n.address
        (record (base_step n "stackforge-control-plane") {
          name = "Install StackForge control plane systemd service";
          role = "control-plane";
          dry_run_description =
              "deploy /etc/stackforge/stackforge.env, install stackforge-control-plane.service, start service, verify /health and authenticated /api/v1";
          rollback =
              "Disable stackforge-control-plane.service and restore /etc/stackforge backups.";
          failure_recovery =
              "Inspect journalctl -u stackforge-control-plane and /etc/stackforge/stackforge.env permissions.";
          changed_files =
              "/usr/local/bin/stackforge" ∷ "/etc/stackforge/stackforge.env"
              ∷ "/etc/systemd/system/stackforge-control-plane.service" ∷ [];
          backup_files =
              "/etc/stackforge.stackforge.<timestamp>.tgz"
              ∷ "/usr/local/bin/stackforge.stackforge.<timestamp>.bak" ∷ [];
        })
        check_command
        (install_control_plane_command w.base64 (env database_url sec) requires_postgres)
        verify_command (values sec)
