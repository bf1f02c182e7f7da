-- ===== src/Tests/Logging.antt =====
-- The theorem on the lines of the log, applied.
use usbfluxd.Prelude.{◌≡◌, refl, ◌+◌, ltb, length, if◌then◌else◌, false, none, some, arith}
use usbfluxd.Text.{cstr}
use usbfluxd.Log.{Log, Time, to_syslog, to_stderr, level_to_syslog_level, usbfluxd_log}
use usbfluxd.Log.Lines.{no_zero, line, short_line, usbfluxd_log-line}

abbrev quiet : Log
quiet = record { log_level = 2; log_syslog = false; is_open = false }

abbrev noon : Time
noon = record { hour = 12; minute = 0; second = 5; usec = 70_001 }

usbfluxd_log-line_example :
    (usbfluxd_log quiet noon 1 (cstr "ab")
      ≡ some (
          if ltb quiet.log_level 1
          then none
          else if quiet.log_syslog
          then some (to_syslog (level_to_syslog_level 1) (short_line 1 (cstr "ab")))
          else some (to_stderr (line noon 1 (cstr "ab")))))
    × (length (line noon 1 (cstr "ab")) + 1 ≡ 20 + length (cstr "ab"))
unfolding cstr no_zero
usbfluxd_log-line_example =
    usbfluxd_log-line quiet noon 1 (cstr "ab") (omega arith) (omega arith) refl (omega arith)
