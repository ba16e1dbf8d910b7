-- ===== src/Log/Line.antt =====
-- modules/log/mlog.c: MLOG_Log_, which writes one line.
use ibv_bench.Base.{
  ℕ, zero, suc, ◌+◌, ◌-◌, ◌/◌, ◌%◌, ◌≤◌, ◌≡◌, ◌≢◌, refl, ap, false, [], ◌∷◌, ◌++◌, arith, ltb, leb,
  ◌==◌, if◌then◌else◌, length, take, Bool-cases, leb→le, inl, inr,
}
use ibv_bench.Base.Text.{Text, codes}
use ibv_bench.Log.{
  LogLevel, log_none, log_warn, log_trace, log_info, log_debug, log_max, level_number,
}

-- `%d` of a number that is not negative; one digit for each round.
digits : ℕ → ℕ → Text
digits zero n = []
digits (suc fuel) n =
    let rest = digits fuel (n / 10) in
    if ltb n 10 then (b'0' + n) ∷ [] else rest ++ ((b'0' + n % 10) ∷ [])

pub print_decimal : ℕ → Text
unfolding digits
print_decimal n = digits (suc n) n

-- `log_levels`; the entry of MLOG_LOG_MAX is NULL, which glibc prints as "(null)". There is none for
-- MLOG_LOG_NONE, which is not printed.
unfoldable pub log_levels : LogLevel → Text
log_levels log_none = codes "(null)"
log_levels log_warn = codes "warn"
log_levels log_trace = codes "trace"
log_levels log_info = codes "info"
log_levels log_debug = codes "debug"
log_levels log_max = codes "(null)"

-- The arguments of the macro MLOG_Log besides the level and the text.
pub record Place : Type 0 where
  pub pid : ℕ
  pub file : Text
  pub func : Text
  pub line : ℕ

-- "%d:%s:%s:%d<%s> "
pub line_head : Place → LogLevel → Text
unfolding print_decimal log_levels
line_head p level =
    print_decimal p.pid
    ++ (b':'
        ∷ (p.file
            ++ (b':'
                ∷ (p.func
                    ++ (b':'
                        ∷ (print_decimal p.line ++ (b'<' ∷ (log_levels level ++ codes "> "))))))))

-- `sizeof(buf)`
abbrev pub buf_size : ℕ
buf_size = 1024

-- What `snprintf(…, n, …)` stores of a text, without the NUL; it stores nothing for 0.
abbrev stored : ℕ → Text → Text
stored n t = take (n - 1) t

-- What a call does: nothing, print, abort by the assertion, or write outside `buf`.
pub data Logged : Type 0 where
  silent : Logged
  printed : Text → Logged
  aborted : Logged
  overrun : Logged

-- The two `snprintf`. Both return the length of the whole text, so that the second may start behind
-- the end of `buf`, where the size given to it wraps around.
pub two_prints : ℕ → Text → Text → Logged
two_prints size_of_buf head message =
    let size = length head in
    if ltb size_of_buf size
    then overrun
    else printed (stored size_of_buf head ++ stored (size_of_buf - size) message)

pub mlog_log : LogLevel → LogLevel → Place → Text → Logged
unfolding two_prints
mlog_log threshold level place message =
    if level_number level == 0
    then aborted
    else if leb (level_number level) (level_number threshold)
    then two_prints buf_size (line_head place level) message
    else silent

zero_minus : (n : ℕ) → 0 - n ≡ 0
zero_minus n = omega arith

minus_zero : (n : ℕ) → n - 0 ≡ n
minus_zero n = omega arith

minus_suc : (n k : ℕ) → suc n - suc k ≡ n - k
minus_suc n k = omega arith

minus_swap : (n k : ℕ) → n - 1 - k ≡ n - k - 1
minus_swap n k = omega arith

take-append : (n : ℕ) (s t : Text) → take n (s ++ t) ≡ take n s ++ take (n - length s) t
take-append zero [] t = refl
take-append (suc n) [] t = rw (minus_zero (suc n))
take-append zero (c ∷ s) t = rw (zero_minus (suc (length s)))
take-append (suc n) (c ∷ s) t = rw (minus_suc n (length s)) (ap (λ l. c ∷ l) (take-append n s t))

counted : (level : LogLevel) → level ≢ log_none → (level_number level == 0) ≡ false
counted log_none h = absurd (h refl)
counted log_warn h = refl
counted log_trace h = refl
counted log_info h = refl
counted log_debug h = refl
counted log_max h = refl

-- Two prints store what one print of the whole text stores, where the head fits.
two_prints-fits :
    (n : ℕ) (head message : Text)
    → length head ≤ n
    → two_prints n head message ≡ printed (take (n - 1) (head ++ message))
unfolding two_prints
two_prints-fits n head message fits =
    let split = take-append (n - 1) head message in
    let order = minus_swap n (length head) in ground (arith, split, order)

-- Both cases of the length.
two_prints-eq :
    (n : ℕ) (head message : Text)
    → two_prints n head message
      ≡ (if leb (length head) n then printed (take (n - 1) (head ++ message)) else overrun)
unfolding two_prints
two_prints-eq n head message = elim (Bool-cases (leb (length head) n)) [
  | inl fits ↦ rw fits (two_prints-fits n head message (leb→le (length head) n fits))
  | inr long ↦ ground (arith, long)
]

-- A call at a level other than NONE prints exactly if the level is at most the threshold. Where the
-- head of the line is at most 1024 characters long, what it prints are the first 1023 characters of
-- the head and the message; where the head is longer, the second print goes outside the buffer.
pub mlog_log-prints :
    (threshold level : LogLevel) (place : Place) (message : Text)
    → level ≢ log_none
    → mlog_log threshold level place message ≡ (
        let line = line_head place level ++ message in
        if leb (level_number level) (level_number threshold)
        then if leb (length (line_head place level)) buf_size
          then printed (take (buf_size - 1) line)
          else overrun
        else silent)
unfolding mlog_log
mlog_log-prints threshold level place message some_level =
    rw (counted level some_level, two_prints-eq buf_size (line_head place level) message)
