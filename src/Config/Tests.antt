-- ===== src/Config/Tests.antt =====
-- A test of internal/config: CONFIG SET of the slow log by "1" reads back as "yes".
use memcore.Base.{false}
use memcore.Base.Int.{pos}
use memcore.Config.{Reloadable}

abbrev boot : Reloadable
boot = record { slow_threshold = pos 10000000; expiry_sample = pos 20; slow_log_enabled = false }
