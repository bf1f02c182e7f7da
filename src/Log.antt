-- ===== src/Log.antt =====
-- usbfluxd/log.c. What is printed is the format string that `usbfluxd_log` makes, as it gets to
-- `vsyslog` or to `vfprintf`; a write outside the block that it is made in is a fault.
pub mod Lines
use usbfluxd.Prelude.{
  ℕ, ◌+◌, ◌-◌, ◌/◌, ◌%◌, ltb, ◌==◌, if◌then◌else◌, Bool, true, false, Option, none, some, List, [],
  ◌∷◌, ◌++◌, length, take, replicate,
}
use usbfluxd.Text.{CString, cstr, decimal}
use usbfluxd.Utils.Strings.{size_mod, stpcpy}

-- `log_level`, `log_syslog`, and whether `openlog` was called without `closelog` after it.
pub record Log : Type 0 where
  pub log_level : ℕ
  pub log_syslog : Bool
  pub is_open : Bool

pub log_enable_syslog : Log → Log
log_enable_syslog l = if l.log_syslog then l else record l { log_syslog = true; is_open = true }

pub log_disable_syslog : Log → Log
log_disable_syslog l = if l.log_syslog then record l { is_open = false } else l

abbrev pub log_crit : ℕ
log_crit = 2

abbrev pub log_debug : ℕ
log_debug = 7

unfoldable pub level_to_syslog_level : ℕ → ℕ
level_to_syslog_level level =
    let result = level + log_crit in if ltb log_debug result then log_debug else result

-- What `gettimeofday` and `localtime_r` give.
pub record Time : Type 0 where
  pub hour : ℕ
  pub minute : ℕ
  pub second : ℕ
  pub usec : ℕ

-- "%H", "%M" and "%S" of `strftime`.
unfoldable pub two_digits : ℕ → CString
two_digits n = (b'0' + n / 10 % 10) ∷ (b'0' + n % 10) ∷ []

-- "%03d".
unfoldable pub three_digits : ℕ → CString
three_digits n = replicate (3 - length (decimal n)) b'0' ++ decimal n

-- "[%H:%M:%S".
unfoldable pub clock_text : Time → CString
unfolding two_digits
clock_text t =
    b'[' ∷ two_digits t.hour ++ (b':' ∷ two_digits t.minute ++ (b':' ∷ two_digits t.second))

-- "[%d] %s" and a newline.
unfoldable pub level_text : ℕ → CString → CString
level_text level fmt = b'[' ∷ decimal level ++ (b']' ∷ b' ' ∷ fmt ++ (10 ∷ []))

-- ".%03d]" and the same.
unfoldable pub rest_text : Time → ℕ → CString → CString
rest_text t level fmt = b'.' ∷ three_digits (t.usec / 1000) ++ (b']' ∷ level_text level fmt)

-- The string that begins a block of memory.
unfoldable pub c_string : List ℕ → CString
c_string [] = []
c_string (b ∷ bytes) = let rest = c_string bytes in if b == 0 then [] else b ∷ rest

pub data Printed : Type 0 where
  to_syslog : ℕ → CString → Printed
  to_stderr : CString → Printed

-- The block as `snprintf` or as `strftime` and `sprintf` fill it.
pub syslog_block : ℕ → ℕ → CString → Option (List ℕ)
syslog_block size level fmt =
    elim (stpcpy (replicate size 0) 0 (take (size - 1) (level_text level fmt))) [
      | none ↦ none
      | some (block, end) ↦ some block
    ]

pub stderr_block : ℕ → Time → ℕ → CString → Option (List ℕ)
stderr_block size t level fmt = elim (stpcpy (replicate size 0) 0 (clock_text t)) [
  | none ↦ none
  | some (block, end) ↦ elim (stpcpy block 9 (rest_text t level fmt)) [
    | none ↦ none
    | some (block', end') ↦ some block'
  ]
]

-- The outer `none` is a fault, the inner one a message that is not printed.
pub usbfluxd_log : Log → Time → ℕ → CString → Option (Option Printed)
unfolding syslog_block stderr_block
usbfluxd_log l t level fmt =
    let size = (20 + length fmt) % size_mod in
    if ltb l.log_level level
    then some none
    else if l.log_syslog
    then elim (syslog_block size level fmt) [
      | none ↦ none
      | some block ↦ some (some (to_syslog (level_to_syslog_level level) (c_string block)))
    ]
    else elim (stderr_block size t level fmt) [
      | none ↦ none
      | some block ↦ some (some (to_stderr (c_string block)))
    ]
