-- ===== src/Examples/Timestamps.antt =====
-- The theorem on timestamps, at a time.
use sd_hw.Prelude.{arith}
use sd_hw.Services.{Tm}
use sd_hw.Events.Format.{to_iso8601_utc}
use sd_hw.Events.Timestamps.{Reads, to_iso8601_utc-Reads}

abbrev noon : Tm
noon = record { year = 2026; month = 5; day = 17; hour = 12; minute = 0; second = 59 }

to_iso8601_utc-Reads_example : Reads noon (to_iso8601_utc noon)
to_iso8601_utc-Reads_example =
    to_iso8601_utc-Reads noon (omega arith) (omega arith) (omega arith) (omega arith) (omega arith)
      (omega arith) (omega arith)
