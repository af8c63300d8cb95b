-- ===== src/Reconcile/Specified/Table.antt =====
-- The hub's settings where the resource gives none.
use kubeshark_operator.Common.{[], ◌∷◌}
use kubeshark_operator.Common.Maps.{StringMap}

abbrev pub default_settings : StringMap
default_settings =
    ("POD_REGEX", ".*")
    ∷ ("NAMESPACES", "")
    ∷ ("EXCLUDED_NAMESPACES", "")
    ∷ ("BPF_OVERRIDE", "")
    ∷ ("STOPPED", "false")
    ∷ ("SCRIPTING_SCRIPTS", "{}")
    ∷ ("SCRIPTING_ACTIVE_SCRIPTS", "")
    ∷ ("INGRESS_ENABLED", "false")
    ∷ ("INGRESS_HOST", "ks.svc.cluster.local")
    ∷ ("PROXY_FRONT_PORT", "8899")
    ∷ ("AUTH_ENABLED", "true")
    ∷ ("AUTH_TYPE", "default")
    ∷ ("AUTH_SAML_IDP_METADATA_URL", "")
    ∷ ("AUTH_SAML_ROLE_ATTRIBUTE", "role")
    ∷ (
      "AUTH_SAML_ROLES",
      "{\"admin\":{\"canDownloadPCAP\":true,\"canStopTrafficCapturing\":true,\"canUpdateTargetedPods\":true,\"canUseScripting\":true,\"filter\":\"\",\"scriptingPermissions\":{\"canActivate\":true,\"canDelete\":true,\"canSave\":true},\"showAdminConsoleLink\":true}}",
    )
    ∷ ("AUTH_OIDC_ISSUER", "not set")
    ∷ ("AUTH_OIDC_REFRESH_TOKEN_LIFETIME", "3960h")
    ∷ ("AUTH_OIDC_STATE_PARAM_EXPIRY", "10m")
    ∷ ("AUTH_OIDC_BYPASS_SSL_CA_CHECK", "false")
    ∷ ("TELEMETRY_DISABLED", "false")
    ∷ ("SCRIPTING_DISABLED", "false")
    ∷ ("TARGETED_PODS_UPDATE_DISABLED", "")
    ∷ ("PRESET_FILTERS_CHANGING_ENABLED", "true")
    ∷ ("RECORDING_DISABLED", "")
    ∷ ("STOP_TRAFFIC_CAPTURING_DISABLED", "false")
    ∷ ("GLOBAL_FILTER", "")
    ∷ ("DEFAULT_FILTER", "!dns and !error")
    ∷ ("TRAFFIC_SAMPLE_RATE", "100")
    ∷ ("JSON_TTL", "5m")
    ∷ ("PCAP_TTL", "10s")
    ∷ ("PCAP_ERROR_TTL", "60s")
    ∷ ("TIMEZONE", " ")
    ∷ ("CLOUD_LICENSE_ENABLED", "true")
    ∷ ("AI_ASSISTANT_ENABLED", "true")
    ∷ ("DUPLICATE_TIMEFRAME", "200ms")
    ∷ ("ENABLED_DISSECTORS", "amqp,dns,http,icmp,kafka,redis,sctp,ws,ldap,radius,diameter")
    ∷ ("CUSTOM_MACROS", "{\"https\":\"tls and (http or http2)\"}")
    ∷ ("DISSECTORS_UPDATING_ENABLED", "true")
    ∷ ("DETECT_DUPLICATES", "false")
    ∷ ("PCAP_DUMP_ENABLE", "true")
    ∷ ("PCAP_TIME_INTERVAL", "1m")
    ∷ ("PCAP_MAX_TIME", "1h")
    ∷ ("PCAP_MAX_SIZE", "500MB")
    ∷ (
      "PORT_MAPPING",
      "{\"amqp\":[5671,5672],\"diameter\":[3868],\"http\":[80,443,8080],\"kafka\":[9092],\"ldap\":[389],\"redis\":[6379]}",
    )
    ∷ []
