-- ===== src/Config/Defaults.antt =====
-- `CONFIG` as genpi/config.py declares it.
use generatorpi.Base.{pos, codes, [], ◌∷◌}
use generatorpi.Float.{Float}
use generatorpi.Config.{int, float, text, Config}

unfoldable pub default_config : {F : Type 0} ⦃f : Float F⦄ → Config F
default_config {F} ⦃f⦄ =
    (codes "RELAY_PIN", int (pos 27))
    ∷ (codes "MAX_START_RETRIES", int (pos 1))
    ∷ (codes "BUTTON_PRESS_DURATION", float (f.decimal 25 2))
    ∷ (codes "PRIME_DELAY", float (f.decimal 75 2))
    ∷ (codes "RETRY_DELAY", float (f.decimal 5 0))
    ∷ (codes "HOST", text (codes "0.0.0.0"))
    ∷ (codes "PORT", int (pos 9400))
    ∷ (codes "SERVICE_ENABLED", int (pos 1))
    ∷ (codes "AUTOSTART", int (pos 1))
    ∷ (codes "SSL_ENABLED", int (pos 1))
    ∷ (codes "SSL_CERT_DAYS", int (pos 365))
    ∷ (codes "SSL_RENEW_DAYS", int (pos 30))
    ∷ (codes "SSL_CERT_MODE", text (codes "auto"))
    ∷ (codes "SSL_CERT_FILE", text (codes "ssl_cert.pem"))
    ∷ (codes "SSL_KEY_FILE", text (codes "ssl_key.pem"))
    ∷ (codes "SSL_SAN", text [])
    ∷ (codes "API_KEY_ENABLED", int (pos 1))
    ∷ (codes "API_KEY", text [])
    ∷ (codes "RATE_LIMIT_MAX_FAILURES", int (pos 5))
    ∷ (codes "RATE_LIMIT_LOCKOUT_SECONDS", int (pos 300))
    ∷ (codes "RATE_LIMIT_CLEANUP_SECONDS", int (pos 600))
    ∷ (codes "RATE_LIMIT_MAX_TRACKED_IPS", int (pos 1000))
    ∷ (codes "LOG_FILE", text (codes "generator_control.log"))
    ∷ (codes "LOG_MAX_BYTES", int (pos 10485760))
    ∷ (codes "LOG_BACKUP_COUNT", int (pos 3))
    ∷ (codes "LOG_LEVEL", text (codes "INFO"))
    ∷ (codes "EVENT_LOG_DB", text (codes "events.db"))
    ∷ (codes "EVENT_LOG_MAX", int (pos 10000))
    ∷ (codes "VAPID_PUBLIC_KEY", text [])
    ∷ (codes "VAPID_PRIVATE_KEY", text [])
    ∷ (codes "VAPID_SUBJECT", text (codes "mailto:admin@localhost"))
    ∷ (codes "SUBSCRIPTION_MAX", int (pos 100))
    ∷ (codes "FUEL_MONITOR_SECONDS", int (pos 60))
    ∷ (codes "SYSTEM_HISTORY_SECONDS", int (pos 15))
    ∷ (codes "SYSTEM_HISTORY_POINTS", int (pos 240))
    ∷ (codes "SYSTEM_TEMP_PATH", text [])
    ∷ (codes "SYSTEM_WIFI_IFACE", text [])
    ∷ []
