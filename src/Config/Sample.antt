-- ===== src/Config/Sample.antt =====
-- A configuration for tests.
use kitdev_sandboxes.Base.{true, false, none, []}
use kitdev_sandboxes.Config.{Configuration, LifecycleMode, DeploymentProfile}

abbrev pub config : Configuration
config = record {
  schema_version = 1;
  deployment = record {
    profile = DeploymentProfile.minimal;
    lifecycle_mode = LifecycleMode.development;
    listen_address = "127.0.0.1";
    public_exposure = false;
    domain = none;
  };
  paths = record {
    install = "/opt/kitdev-sandboxes";
    config = "/etc/kitdev-sandboxes";
    state = "/var/lib/kitdev-sandboxes/a.b";
    logs = "/var/log/kitdev-sandboxes";
    runtime = "/run/kitdev-sandboxes";
  };
  sandbox = record {
    default_template = "base";
    default_vcpus = 2;
    default_memory_mib = 2048;
    default_disk_mib = 8192;
    default_timeout_seconds = 60;
    default_ttl_seconds = 600;
    max_processes = 64;
    max_output_bytes = 65536;
  };
  network = record {
    ipv4_cidr = "10.0.0.0/16";
    ipv6_enabled = false;
    dns_resolvers = [];
    allow_http_egress = true;
    allow_private_egress = false;
    private_egress_allowlist = [];
    sandbox_to_sandbox = false;
  };
  features = record {
    observability = false;
    persistence = false;
    backups = false;
    browser_template = false;
    desktop_template = false;
  };
  identity = record { operator = none };
}
