-- ===== src/Events/Format.antt =====
-- src/events.cpp: `ToIso8601Utc`, from the broken-down time that `gmtime_r` gives.
use sd_hw.Prelude.{ℕ, ◌+◌, ◌/◌, ◌%◌, [], ◌∷◌, ◌++◌, Text, codes}
use sd_hw.Prelude.Int.{pos}
use sd_hw.Services.{Tm}
use sd_hw.Http.{to_string}

abbrev pub two_digits : ℕ → Text
two_digits n = (b'0' + n / 10 % 10) ∷ (b'0' + n % 10) ∷ []

-- std::put_time with "%Y-%m-%dT%H:%M:%SZ"
unfoldable pub to_iso8601_utc : Tm → Text
to_iso8601_utc utc_time =
    to_string (pos utc_time.year)
    ++ (codes "-"
        ++ (two_digits utc_time.month
            ++ (codes "-"
                ++ (two_digits utc_time.day
                    ++ (codes "T"
                        ++ (two_digits utc_time.hour
                            ++ (codes ":"
                                ++ (two_digits utc_time.minute
                                    ++ (codes ":"
                                        ++ (two_digits utc_time.second ++ codes "Z"))))))))))
