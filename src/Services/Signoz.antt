-- ===== src/Services/Signoz.antt =====
-- internal/services/signoz/signoz.go
use infra_shelf.Common.{Bytes, if◌then◌else◌}
use infra_shelf.Common.Text.{codes, is_empty, trim_space}
use infra_shelf.Registry.{SignozConfig}
use infra_shelf.Registry.Store.{get_or_empty}
use infra_shelf.Machine.{Host}

unfoldable pub provision : Host → Bytes → Bytes → Bytes → SignozConfig
provision h app_name service_name environment =
    let default = trim_space (get_or_empty (codes "SIGNOZ_DEFAULT_ENV") h.env) in
    record {
      service_name = if is_empty service_name then app_name else service_name;
      environment =
          if is_empty environment
          then (if is_empty default then codes "dev" else default)
          else environment;
    }
