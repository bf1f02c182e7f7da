-- ===== src/Log/Lines.antt =====
-- `usbfluxd_log`: the lines of the log fit in the blocks that they are made in.
use usbfluxd.Prelude.{
  ℕ, zero, suc, ◌+◌, ◌-◌, ◌/◌, ◌%◌, ◌^◌, ◌≤◌, ◌<◌, ◌≡◌, refl, ◌&&◌, not, ltb, ◌==◌, if◌then◌else◌,
  Bool, true, none, some, List, [], ◌∷◌, ◌++◌, length, take, drop, replicate, length-append,
  length-replicate, length-drop, arith, inl, inr, Bool-cases,
}
use usbfluxd.Text.{CString, decimal_from, decimal}
use usbfluxd.Buffer.Memory.{take-all}
use usbfluxd.Utils.Strings.{size_mod, stpcpy}
use usbfluxd.Utils.Strings.Concat.{stpcpy-append}
use usbfluxd.Log.{
  Log, level_to_syslog_level, Time, two_digits, three_digits, clock_text, level_text, rest_text,
  c_string, to_syslog, to_stderr, syslog_block, stderr_block, usbfluxd_log,
}

-- A string has no zero in it.
unfoldable pub no_zero : CString → Bool
no_zero [] = true
no_zero (b ∷ s) = not (b == 0) && no_zero s

no_zero-append : (s t : CString) → no_zero s ≡ true → no_zero t ≡ true → no_zero (s ++ t) ≡ true
unfolding no_zero
no_zero-append [] t h k = k
no_zero-append (b ∷ s) t h k = ground (arith, no_zero-append s t)

c_string-append : (s rest : List ℕ) → no_zero s ≡ true → c_string (s ++ 0 ∷ rest) ≡ s
unfolding c_string no_zero
c_string-append [] rest h = refl
c_string-append (b ∷ s) rest h = ground (arith, c_string-append s rest)

decimal-digit : (n : ℕ) → n < 10 → decimal n ≡ (b'0' + n) ∷ []
unfolding decimal decimal_from
decimal-digit n h = ground (arith, h)

-- The three digits of a number below 1000.
pub digits : ℕ → CString
digits n = (b'0' + n / 100) ∷ (b'0' + n / 10 % 10) ∷ (b'0' + n % 10) ∷ []

same_digits :
    {a b c x y z : ℕ}
    → a ≡ x
    → b ≡ y
    → c ≡ z
    → (b'0' + a) ∷ (b'0' + b) ∷ (b'0' + c) ∷ [] ≡ (b'0' + x) ∷ (b'0' + y) ∷ (b'0' + z) ∷ []
same_digits p q r = rw (p, q, r) refl

three_digits-digits : (n : ℕ) → n < 1000 → three_digits n ≡ digits n
unfolding three_digits decimal decimal_from digits
three_digits-digits n h = elim (Bool-cases (ltb n 10)) [
  | inl short ↦
      rw (three_digits, decimal, decimal_from, short)
        (same_digits {a = 0} {b = 0} (ground (arith, short)) (ground (arith, short))
          (ground (arith, short)))
  | inr long ↦ elim (Bool-cases (ltb (n / 10) 10)) [
    | inl two ↦
        rw (three_digits, decimal, decimal_from, long, two)
          (same_digits {a = 0} (ground (arith, two)) (ground (arith, two)) refl)
    | inr three ↦
        let last : ltb (n / 10 / 10) 10 ≡ true = ground (arith, h) in
        rw (three_digits, decimal, decimal_from, long, three, last)
          (same_digits (omega arith) refl refl)
  ]
]

-- The line with the time, of a message of one of the levels.
pub line : Time → ℕ → CString → CString
line t level fmt =
    b'[' ∷ two_digits t.hour
    ++ (b':' ∷ two_digits t.minute
        ++ (b':' ∷ two_digits t.second
            ++ (b'.' ∷ digits (t.usec / 1000)
                ++ (b']' ∷ b'[' ∷ (b'0' + level) ∷ b']' ∷ b' ' ∷ fmt ++ (10 ∷ [])))))

pub short_line : ℕ → CString → CString
short_line level fmt = b'[' ∷ (b'0' + level) ∷ b']' ∷ b' ' ∷ fmt ++ (10 ∷ [])

length-short_line : (level : ℕ) (fmt : CString) → length (short_line level fmt) ≡ 5 + length fmt
unfolding short_line
length-short_line level fmt = omega (arith, length-append fmt (10 ∷ []))

level_text-short_line :
    (level : ℕ) (fmt : CString) → level < 10 → level_text level fmt ≡ short_line level fmt
unfolding level_text short_line
level_text-short_line level fmt h = rw (level_text, decimal-digit level h) refl

no_zero-short_line :
    (level : ℕ) (fmt : CString) → no_zero fmt ≡ true → no_zero (short_line level fmt) ≡ true
unfolding short_line no_zero
no_zero-short_line level fmt h = ground (arith, no_zero-append fmt (10 ∷ []) h refl)

rest_line : Time → ℕ → CString → CString
rest_line t level fmt = b'.' ∷ digits (t.usec / 1000) ++ (b']' ∷ short_line level fmt)

rest_text-rest_line :
    (t : Time) (level : ℕ) (fmt : CString)
    → level < 10
    → t.usec < 10 ^ 6
    → rest_text t level fmt ≡ rest_line t level fmt
unfolding rest_text rest_line
rest_text-rest_line t level fmt h k =
    rw
      (
        rest_text,
        level_text-short_line level fmt h,
        three_digits-digits (t.usec / 1000) (omega arith),
      )
      refl

no_zero-line :
    (t : Time) (level : ℕ) (fmt : CString)
    → no_zero fmt ≡ true
    → no_zero (clock_text t ++ rest_line t level fmt) ≡ true
unfolding clock_text two_digits rest_line digits no_zero
no_zero-line t level fmt h = ground (arith, no_zero-short_line level fmt h)

copied :
    (size : ℕ) (s : CString)
    → length s < size
    → stpcpy (replicate size 0) 0 s
      ≡ some (s ++ 0 ∷ drop (length s) (replicate (size - 1) 0), 0 + length s)
copied (suc size) s h =
    let one_less : suc size - 1 ≡ size = omega arith in
    rw one_less
      (stpcpy-append [] 0 (replicate size 0) s (omega (arith, h, length-replicate {A = ℕ} size 0)))
copied zero s h = absurd (omega (arith, h))

syslog_block-short_line :
    (size level : ℕ) (fmt : CString)
    → level < 10
    → size ≡ 20 + length fmt
    → (rest : List ℕ) × (syslog_block size level fmt ≡ some (short_line level fmt ++ 0 ∷ rest))
unfolding syslog_block
syslog_block-short_line size level fmt h e =
    let whole : take (size - 1) (short_line level fmt) ≡ short_line level fmt =
      take-all (size - 1) (short_line level fmt) (omega (arith, length-short_line level fmt, e)) in
    (
      drop (length (short_line level fmt)) (replicate (size - 1) 0),
      rw
          (
            syslog_block,
            level_text-short_line level fmt h,
            whole,
            copied size (short_line level fmt) (omega (arith, length-short_line level fmt, e)),
          )
          refl,
    )

length-rest_line :
    (t : Time) (level : ℕ) (fmt : CString) → length (rest_line t level fmt) ≡ 10 + length fmt
unfolding rest_line digits
length-rest_line t level fmt = omega (arith, length-short_line level fmt)

stderr_block-line :
    (size : ℕ) (t : Time) (level : ℕ) (fmt : CString)
    → level < 10
    → t.usec < 10 ^ 6
    → size ≡ 20 + length fmt
    → (rest : List ℕ) × (stderr_block size t level fmt
        ≡ some ((clock_text t ++ rest_line t level fmt) ++ 0 ∷ rest))
unfolding stderr_block clock_text two_digits
stderr_block-line size t level fmt h k e =
    let zeros : List ℕ = drop 9 (replicate (size - 1) 0) in
    let room : length (rest_line t level fmt) ≤ length zeros = omega (
      arith,
      length-rest_line t level fmt,
      e,
      length-drop {A = ℕ} 9 (replicate (size - 1) 0),
      length-replicate {A = ℕ} (size - 1) 0,
    ) in
    let after_clock = stpcpy-append (clock_text t) 0 zeros (rest_line t level fmt) room in
    (
      drop (length (rest_line t level fmt)) zeros,
      rw
          (
            stderr_block,
            copied size (clock_text t) (omega (arith, e)),
            rest_text-rest_line t level fmt h k,
            after_clock,
          )
          refl,
    )

-- Where the message has no zero in it and a length that fits, with a level of one digit, as all are, and
-- a time below one second in microseconds: `usbfluxd_log` does not write outside the block that it asks
-- `malloc` for. A message above the level of the log is left out, and any other gets to syslog behind
-- its level, or to stderr behind the time, three digits of milliseconds and its level; the line for
-- stderr with the zero behind it is just as long as the block.
pub usbfluxd_log-line :
    (l : Log) (t : Time) (level : ℕ) (fmt : CString)
    → level < 10
    → t.usec < 10 ^ 6
    → no_zero fmt ≡ true
    → 20 + length fmt < size_mod
    → (usbfluxd_log l t level fmt
        ≡ some (
            if ltb l.log_level level
            then none
            else if l.log_syslog
            then some (to_syslog (level_to_syslog_level level) (short_line level fmt))
            else some (to_stderr (line t level fmt))))
      × (length (line t level fmt) + 1 ≡ 20 + length fmt)
unfolding usbfluxd_log line rest_line short_line clock_text two_digits
usbfluxd_log-line l t level fmt h k clean fits =
    let size : (20 + length fmt) % size_mod ≡ 20 + length fmt = omega (arith, fits) in
    let (r1, e1) = syslog_block-short_line ((20 + length fmt) % size_mod) level fmt h size in
    let (r2, e2) = stderr_block-line ((20 + length fmt) % size_mod) t level fmt h k size in
    let c1 = c_string-append (short_line level fmt) r1 (no_zero-short_line level fmt clean) in
    let c2 =
      c_string-append (clock_text t ++ rest_line t level fmt) r2 (no_zero-line t level fmt clean) in
    (
      (elim (Bool-cases (ltb l.log_level level)) [
        | inl above ↦ rw (usbfluxd_log, above) refl
        | inr shown ↦ elim (Bool-cases l.log_syslog) [
          | inl there ↦ rw (usbfluxd_log, shown, there, e1, c1) refl
          | inr here ↦ rw (usbfluxd_log, shown, here, e2, c2) refl
        ]
      ]),
      omega (arith, length-rest_line t level fmt),
    )
