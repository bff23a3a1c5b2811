-- ===== src/Install/Commands.antt =====
-- The shell commands of the installer, internal/stackforge/install/install.go, as texts.
use Prim.Native.String.{◌++◌ as ◌<>◌}
use stack_forge.Base.{
  ℕ, ◌+◌, String, Bool, not, ◌&&◌, ◌||◌, List, [], ◌∷◌, eqb, if◌then◌else◌, ◌==◌,
}
use stack_forge.Text.{trim_prefix, is_set, quoted}
use stack_forge.Text.Number.{show}
use stack_forge.Paths.{dir, base, join_path}
use stack_forge.Shell.{shell_quote, replace_char}
use stack_forge.Config.{Config, NodeConfig}
use stack_forge.Secrets.{Secrets, deploy_env_command, verify_remote_env_permissions_command}

infixr 5 ◌&◌
-- Go's `+` on texts
abbrev ◌&◌ : String → String → String
s & t = s <> t

-- `%t`
abbrev show_bool : Bool → String
show_bool b = if b then "true" else "false"

-- The inner loop of `countRole`
unfoldable pub count_of : String → List String → ℕ
count_of role [] = 0
count_of role (r ∷ roles) = (if r == role then 1 else 0) + count_of role roles

-- The outer loop
unfoldable pub count_in : String → List NodeConfig → ℕ
count_in role [] = 0
count_in role (n ∷ nodes) = count_of role n.roles + count_in role nodes

-- `countRole`
unfoldable pub count_role : List NodeConfig → String → ℕ
count_role nodes role = let n = count_in role nodes in if eqb n 0 then 1 else n

-- `hashicorpRepoCommand`
unfoldable pub hashicorp_repo_command : String
hashicorp_repo_command =
    "install -m 0755 -d /etc/apt/keyrings && curl -fsSL https://apt.releases.hashicorp.com/gpg | gpg --dearmor -o /etc/apt/keyrings/hashicorp-archive-keyring.gpg.tmp && mv /etc/apt/keyrings/hashicorp-archive-keyring.gpg.tmp /etc/apt/keyrings/hashicorp-archive-keyring.gpg && chmod 0644 /etc/apt/keyrings/hashicorp-archive-keyring.gpg && . /etc/os-release && echo \"deb [signed-by=/etc/apt/keyrings/hashicorp-archive-keyring.gpg] https://apt.releases.hashicorp.com $VERSION_CODENAME main\" > /etc/apt/sources.list.d/hashicorp.list && apt-get update"

-- `installTraefikBinaryCommand`
unfoldable pub install_traefik_binary_command : String → String
install_traefik_binary_command given =
    let version =
      trim_prefix (if given == "" || given == "latest-stable" then "v3.3.3" else given)
        "traefik-" in
    "if command -v traefik >/dev/null 2>&1; then install -m 0755 $(command -v traefik) /usr/local/bin/traefik; else arch=$(dpkg --print-architecture); case \"$arch\" in amd64) ta=amd64;; arm64) ta=arm64;; *) echo \"unsupported Traefik architecture $arch\" >&2; exit 1;; esac; tmp=$(mktemp -d); curl -fsSL -o \"$tmp/traefik.tgz\" https://github.com/traefik/traefik/releases/download/"
    & (shell_quote version)
    & "/traefik_"
    & (shell_quote (trim_prefix version "v"))
    & "_linux_${ta}.tar.gz; tar -C \"$tmp\" -xzf \"$tmp/traefik.tgz\" traefik; install -m 0755 \"$tmp/traefik\" /usr/local/bin/traefik; rm -rf \"$tmp\"; fi; /usr/local/bin/traefik version >/dev/null"

-- `installStackForgeBinaryCommand`
unfoldable pub install_stack_forge_binary_command : String
install_stack_forge_binary_command =
    "command -v stackforge >/dev/null 2>&1 && install -m 0755 $(command -v stackforge) /usr/local/bin/stackforge || test -x /usr/local/bin/stackforge || { echo 'run install from a built stackforge binary or preinstall /usr/local/bin/stackforge on the target' >&2; exit 1; }"

-- `waitHTTPCommand`
unfoldable pub wait_http_command : String → String
wait_http_command url =
    "ok=0; for i in $(seq 1 30); do if curl -fsS "
    & (shell_quote url)
    & " >/dev/null; then ok=1; break; fi; sleep 2; done; test \"$ok\" = 1"

-- `backupDirCommand`: the name of the archive stands in single quotes, where a shell runs nothing.
unfoldable pub backup_dir_command : String → String
backup_dir_command path =
    "if [ -d "
    & (shell_quote path)
    & " ]; then tar -C "
    & (shell_quote (dir path))
    & " -czf "
    & (shell_quote (path & ".stackforge.$(date -u +%Y%m%dT%H%M%SZ).tgz"))
    & " "
    & (shell_quote (base path))
    & "; fi"

-- `basePackagesCommand`
unfoldable pub base_packages_command : String
base_packages_command =
    let pkgs : String =
      "curl wget unzip ca-certificates gnupg lsb-release jq ufw systemd openssl iproute2 tar gzip apt-transport-https" in
    "missing=''; for p in " & pkgs
    & "; do dpkg -s \"$p\" >/dev/null 2>&1 || missing=\"$missing $p\"; done; if [ -n \"$missing\" ]; then apt-get update && DEBIAN_FRONTEND=noninteractive apt-get install -y $missing; fi"

module _ (base64 : String → String) where
  -- `writeBase64Command`
  unfoldable pub write_base64_command : String → String → String → String
  write_base64_command path body mode =
      "tmp=$(mktemp "
      & (shell_quote (join_path (dir path ∷ ".stackforge.tmp.XXXXXX" ∷ [])))
      & ") && printf %s "
      & (shell_quote (base64 body))
      & " | base64 -d > \"$tmp\" && chmod "
      & (shell_quote mode)
      & " \"$tmp\" && mv \"$tmp\" "
      & (shell_quote path)

  -- `installConsulCommand`; the secrets are given
  unfoldable pub install_consul_command : Config → Secrets → String
  install_consul_command c sec =
      let encrypt_line : String =
        if c.consul.encrypt_gossip && is_set sec.consul_gossip_key
        then ("encrypt = " & quoted sec.consul_gossip_key & "\n")
        else "" in
      let token = sec.consul_bootstrap_token in
      let token_block : String =
        if c.consul.acl_enabled && is_set token
        then ("tokens {\n  initial_management = " & quoted token & "\n}\n")
        else "" in
      let config_body : String =
        ("datacenter = "
          & quoted c.cluster.datacenter
          & "\ndata_dir = \"/opt/consul\"\nserver = true\nbootstrap_expect = "
          & show (count_role c.nodes "consul-server")
          & "\nclient_addr = \"127.0.0.1\"\nbind_addr = \"{{ GetPrivateIP }}\"\n"
          & encrypt_line
          & "\nui_config { enabled = "
          & show_bool c.consul.ui_enabled
          & " }\nacl {\n  enabled = "
          & show_bool c.consul.acl_enabled
          & "\n  default_policy = \"deny\"\n  enable_token_persistence = true\n}\n"
          & token_block) in
      ("set -e; "
        & hashicorp_repo_command
        & " && DEBIAN_FRONTEND=noninteractive apt-get install -y consul && install -d -m 0750 /etc/consul.d /opt/consul && "
        & (backup_dir_command "/etc/consul.d")
        & " && "
        & (write_base64_command "/etc/consul.d/stackforge.hcl" config_body "0640")
        & " && { chown -R consul:consul /opt/consul /etc/consul.d || true; } && systemctl enable consul && systemctl restart consul && "
        & (wait_http_command "http://127.0.0.1:8500/v1/status/leader"))
      & (if c.consul.acl_enabled && is_set token
          then (" && curl -fsS -H "
              & (shell_quote ("X-Consul-Token: " & token))
              & " http://127.0.0.1:8500/v1/acl/token/self >/dev/null && echo STACKFORGE_CONSUL_BOOTSTRAP_TOKEN="
              & (shell_quote token))
          else "")

  -- `installNomadCommand`; the secrets are given
  unfoldable pub install_nomad_command : Config → String → Secrets → String
  install_nomad_command c role sec =
      let server_enabled = role == "nomad-server" in
      let client_enabled = role == "nomad-client" || c.nomad.client_enabled in
      let token = sec.nomad_bootstrap_token in
      let config_body : String =
        ("datacenter = "
          & quoted c.cluster.datacenter
          & "\ndata_dir = \"/opt/nomad\"\nbind_addr = \"0.0.0.0\"\nserver {\n  enabled = "
          & show_bool server_enabled
          & "\n  bootstrap_expect = "
          & show (count_role c.nodes "nomad-server")
          & "\n}\nclient {\n  enabled = "
          & show_bool client_enabled
          & "\n}\nacl {\n  enabled = "
          & show_bool c.nomad.acl_enabled
          & "\n}\n") in
      ("set -e; "
        & hashicorp_repo_command
        & " && DEBIAN_FRONTEND=noninteractive apt-get install -y nomad && install -d -m 0750 /etc/nomad.d /opt/nomad && "
        & (backup_dir_command "/etc/nomad.d")
        & " && "
        & (write_base64_command "/etc/nomad.d/stackforge.hcl" config_body "0640")
        & " && { chown -R nomad:nomad /opt/nomad /etc/nomad.d || true; } && systemctl enable nomad && systemctl restart nomad && "
        & (wait_http_command "http://127.0.0.1:4646/v1/status/leader"))
      & (if c.nomad.acl_enabled && server_enabled
          then (" && if NOMAD_TOKEN="
              & (shell_quote token)
              & " nomad acl token self >/dev/null 2>&1; then echo STACKFORGE_NOMAD_BOOTSTRAP_TOKEN="
              & (shell_quote token)
              & "; else err=$(mktemp); if out=$(nomad acl bootstrap -json 2>\"$err\"); then boot=$(printf '%s' \"$out\" | jq -r '.SecretID'); test -n \"$boot\" && echo STACKFORGE_NOMAD_BOOTSTRAP_TOKEN=$boot; elif grep -qi bootstrapped \"$err\"; then echo 'Nomad ACLs are already bootstrapped but the stored StackForge token is invalid or missing' >&2; exit 15; else cat \"$err\" >&2; exit 1; fi; rm -f \"$err\"; fi")
          else "")

  -- `installTraefikCommand`
  unfoldable pub install_traefik_command : Config → String
  install_traefik_command c =
      if c.traefik.dashboard_enabled && not c.traefik.dashboard_basic_auth
      then "echo 'Traefik dashboard would be public without protection' >&2; exit 1"
      else (let dashboard : String = show_bool c.traefik.dashboard_enabled in
          let insecure : String = "false" in
          let acme : String =
            if is_set c.traefik.cert_resolver && is_set c.traefik.email
            then ("certificatesResolvers:\n  "
                & c.traefik.cert_resolver
                & ":\n    acme:\n      email: "
                & quoted c.traefik.email
                & "\n      storage: /var/lib/traefik/acme.json\n      httpChallenge:\n        entryPoint: web\n")
            else "" in
          let config_body : String =
            ("entryPoints:\n  web:\n    address: \":80\"\n  websecure:\n    address: \":443\"\nproviders:\n  file:\n    directory: /etc/traefik/dynamic\n    watch: true\napi:\n  dashboard: "
              & dashboard & "\n  insecure: " & insecure & "\n" & acme) in
          let dynamic_body : String = "http:\n  routers: {}\n  middlewares: {}\n" in
          let unit : String =
            "[Unit]\nDescription=Traefik\nAfter=network-online.target\n\n[Service]\nExecStart=/usr/local/bin/traefik --configFile=/etc/traefik/traefik.yaml\nRestart=on-failure\nAmbientCapabilities=CAP_NET_BIND_SERVICE\n\n[Install]\nWantedBy=multi-user.target\n" in
          ("set -e; "
            & (install_traefik_binary_command c.traefik.version)
            & " && install -d -m 0755 /etc/traefik/dynamic && install -d -m 0700 /var/lib/traefik && touch /var/lib/traefik/acme.json && chmod 0600 /var/lib/traefik/acme.json && "
            & (backup_dir_command "/etc/traefik")
            & " && "
            & (write_base64_command "/etc/traefik/traefik.yaml" config_body "0644")
            & " && "
            & (write_base64_command "/etc/traefik/dynamic/stackforge.yaml" dynamic_body "0644")
            & " && "
            & (write_base64_command "/etc/systemd/system/traefik.service" unit "0644")
            & " && systemctl daemon-reload && systemctl enable traefik && systemctl restart traefik"))

  -- `installPostgresCommand`; the secrets are given
  unfoldable pub install_postgres_command : Secrets → String
  install_postgres_command sec =
      let escaped_password : String = replace_char "'" "''" sec.database_password in
      let migration : String =
        "CREATE TABLE IF NOT EXISTS stackforge_schema_migrations (version TEXT PRIMARY KEY, applied_at TIMESTAMP NOT NULL DEFAULT now());\nINSERT INTO stackforge_schema_migrations(version) VALUES ('001_stackforge_control_plane') ON CONFLICT DO NOTHING;" in
      "set -e; DEBIAN_FRONTEND=noninteractive apt-get install -y postgresql postgresql-client && systemctl enable postgresql && systemctl start postgresql && "
      & "if ! sudo -u postgres psql -tAc \"SELECT 1 FROM pg_roles WHERE rolname='stackforge'\" | grep -q 1; then sudo -u postgres psql -c \"CREATE ROLE stackforge LOGIN PASSWORD '"
      & escaped_password
      & "'\"; fi && "
      & "if ! sudo -u postgres psql -tAc \"SELECT 1 FROM pg_database WHERE datname='stackforge'\" | grep -q 1; then sudo -u postgres createdb -O stackforge stackforge; fi && "
      & (backup_dir_command "/etc/postgresql")
      & " && find /etc/postgresql -name postgresql.conf -exec sh -c \"cp -n '$1' '$1.stackforge.bak' && sed -i \\\"s/^#*listen_addresses.*/listen_addresses = '127.0.0.1'/\\\" '$1'\" sh {} \\; && systemctl restart postgresql && "
      & "printf %s "
      & (shell_quote (base64 migration))
      & " | base64 -d | sudo -u postgres psql -d stackforge"

  -- `installControlPlaneCommand`
  unfoldable pub install_control_plane_command : String → Bool → String
  install_control_plane_command env requires_postgres =
      let env_command : String =
        if is_set env
        then (deploy_env_command base64 env []).command
        else "install -d -m 0750 /etc/stackforge /var/lib/stackforge && touch /etc/stackforge/stackforge.env && chmod 0600 /etc/stackforge/stackforge.env" in
      let after : String =
        if requires_postgres
        then "network-online.target postgresql.service"
        else "network-online.target" in
      let unit : String =
        ("[Unit]\nDescription=StackForge control plane\nAfter=" & after
          & "\n\n[Service]\nEnvironmentFile=/etc/stackforge/stackforge.env\nExecStart=/usr/local/bin/stackforge serve\nRestart=on-failure\nUser=root\n\n[Install]\nWantedBy=multi-user.target\n") in
      "set -e; "
      & (backup_dir_command "/etc/stackforge")
      & " && "
      & install_stack_forge_binary_command
      & " && "
      & env_command
      & " && "
      & (write_base64_command "/etc/systemd/system/stackforge-control-plane.service" unit "0644")
      & " && systemctl daemon-reload && systemctl enable stackforge-control-plane && systemctl restart stackforge-control-plane && "
      & verify_remote_env_permissions_command.command

-- `UFWDetectCommand` of internal/stackforge/firewall/firewall.go
abbrev pub ufw_detect_command : String
ufw_detect_command =
    "if command -v ufw >/dev/null 2>&1; then exit 0; fi; if command -v nft >/dev/null 2>&1; then echo 'nftables-only firewall detected; StackForge supports UFW live management only' >&2; exit 2; fi; echo 'ufw is required unless --allow-no-firewall is set' >&2; exit 1"

-- `BackupCommand` of the same file
abbrev pub backup_command : String
backup_command =
    "install -d -m 0700 /var/lib/stackforge/firewall && ufw status verbose > /var/lib/stackforge/firewall/ufw-before-$(date -u +%Y%m%dT%H%M%SZ).txt || true"

-- `VerifyUFWCommand` of the same file
abbrev pub verify_ufw_command : String
verify_ufw_command =
    "ufw status | grep -q active && ! ufw status numbered | grep -E '5432|8500|4646|8080' | grep -q 'Anywhere'"
