-- ===== src/Registry/Known.antt =====
-- The resource declarations that cli/src/framework/registry.rs builds in.
use sec_fa.Prelude.{String, List, [], ◌∷◌}
use sec_fa.Json.{pos}
use sec_fa.Registry.{ResourceDeclaration}

unfoldable pub all_modes : List String
all_modes = "halted" ∷ "observe" ∷ "shadow" ∷ "stage" ∷ "paper" ∷ "live_limited" ∷ "live" ∷ []

unfoldable pub known_resource_declarations : List ResourceDeclaration
unfolding all_modes
known_resource_declarations =
    record {
      resource_id = "cpu.local";
      resource_kind = "cpu";
      max_concurrent = pos 1;
      min_interval_ms = pos 0;
      allowed_modes = all_modes;
      hazard_class = "C";
      description = "Local CPU execution.";
    }
    ∷ record {
      resource_id = "sqlite.local";
      resource_kind = "sqlite";
      max_concurrent = pos 1;
      min_interval_ms = pos 0;
      allowed_modes = all_modes;
      hazard_class = "B";
      description = "Local SQLite operational database.";
    }
    ∷ record {
      resource_id = "filesystem.local";
      resource_kind = "filesystem";
      max_concurrent = pos 1;
      min_interval_ms = pos 0;
      allowed_modes = all_modes;
      hazard_class = "B";
      description = "Local filesystem reads and writes.";
    }
    ∷ record {
      resource_id = "sec.http";
      resource_kind = "sec_http";
      max_concurrent = pos 1;
      min_interval_ms = pos 150;
      allowed_modes = "observe" ∷ "shadow" ∷ "stage" ∷ "paper" ∷ "live_limited" ∷ "live" ∷ [];
      hazard_class = "B";
      description = "SEC HTTP reads with rate moderation.";
    }
    ∷ record {
      resource_id = "market_data_http";
      resource_kind = "market_data_http";
      max_concurrent = pos 1;
      min_interval_ms = pos 150;
      allowed_modes = "observe" ∷ "shadow" ∷ "stage" ∷ "paper" ∷ "live_limited" ∷ "live" ∷ [];
      hazard_class = "B";
      description = "Market-data HTTP reads.";
    }
    ∷ record {
      resource_id = "broker.adapter";
      resource_kind = "broker";
      max_concurrent = pos 1;
      min_interval_ms = pos 0;
      allowed_modes = "paper" ∷ "live_limited" ∷ "live" ∷ [];
      hazard_class = "A";
      description = "Isolated broker adapter boundary.";
    }
    ∷ record {
      resource_id = "notification.local";
      resource_kind = "notification";
      max_concurrent = pos 1;
      min_interval_ms = pos 0;
      allowed_modes = all_modes;
      hazard_class = "C";
      description = "Operator notification channel.";
    }
    ∷ record {
      resource_id = "clock.utc";
      resource_kind = "clock";
      max_concurrent = pos 1;
      min_interval_ms = pos 0;
      allowed_modes = all_modes;
      hazard_class = "B";
      description = "UTC wall-clock access outside the pure C++ core.";
    }
    ∷ []
