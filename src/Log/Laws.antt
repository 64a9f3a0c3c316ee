-- ===== src/Log/Laws.antt =====
-- What the logger writes, and how the name of a level is read.
use spartan_launcher.Prelude.{
  ℕ, zero, suc, ◌+◌, ◌-◌, ◌≤◌, ◌≡◌, refl, ap, ◌∙◌, true, none, some, [], ◌∷◌, ◌++◌, arith, ltb, leb,
  if◌then◌else◌, Bytes, is_space, length, take, Bool-cases, inl, inr, All,
}
use spartan_launcher.Log.{
  LoggingLevel, severity, ltrim, rtrim, trim, str_to_level, Logger, Sink, style, formatted, vlog,
  syslog_of,
}

take_all : (n : ℕ) (s : Bytes) → length s ≤ n → take n s ≡ s
take_all zero [] h = refl
take_all zero (c ∷ s) h = absurd (omega arith)
take_all (suc n) [] h = refl
take_all (suc n) (c ∷ s) h = ap (◌∷◌ c) (take_all n s (omega arith))

formatted_lem : (msg : Bytes) → formatted msg ≡ msg
unfolding formatted
formatted_lem msg = elim (Bool-cases (leb 256 (length msg))) [
  | inl long ↦ rw long (take_all (length msg + 1 - 1) msg (omega arith))
  | inr short ↦ rw short (take_all 255 msg (ground arith))
]

-- A message below the logger's level is not written. Any other is written whole, however long it
-- is, behind the program's name and its level: to stderr from WARN on, else to stdout; and to
-- syslog from ERR on, unless that was turned off.
pub vlog_lem :
    (lg : Logger) (l : LoggingLevel) (msg : Bytes)
    → vlog lg l msg ≡ (
        if ltb (severity l) (severity lg.level)
        then none
        else some (record {
          sink = if leb 4 (severity l) then Sink.stderr else Sink.stdout;
          text = lg.progname ++ ((style l).1 ++ (msg ++ b'\n' ∷ []));
          syslog =
              if leb 5 (severity l)
              then syslog_of lg.syslog_armed (style l).2 (msg ++ b'\n' ∷ [])
              else none;
        }))
unfolding vlog severity style
vlog_lem lg LoggingLevel.fatal msg = rw (formatted_lem msg) refl
vlog_lem lg LoggingLevel.err msg = rw (formatted_lem msg) refl
vlog_lem lg LoggingLevel.warn msg = rw (formatted_lem msg) refl
vlog_lem lg LoggingLevel.info msg = rw (formatted_lem msg) refl
vlog_lem lg LoggingLevel.debug msg = rw (formatted_lem msg) refl
vlog_lem lg LoggingLevel.trace msg = rw (formatted_lem msg) refl

AreSpaces : Bytes → Type 0
AreSpaces = All (λ c. is_space c ≡ true)

rtrim_spaces : (q : Bytes) → AreSpaces q → rtrim q ≡ []
unfolding rtrim AreSpaces
rtrim_spaces [] h = refl
rtrim_spaces (c ∷ q) h = rw (rtrim_spaces q h.1, h.0) refl

rtrim-append : (s q : Bytes) → AreSpaces q → rtrim (s ++ q) ≡ rtrim s
unfolding rtrim
rtrim-append [] q h = rtrim_spaces q h
rtrim-append (c ∷ s) q h = rw (rtrim-append s q h) refl

trim_space : (c : ℕ) (s : Bytes) → is_space c ≡ true → trim (c ∷ s) ≡ trim s
unfolding trim rtrim ltrim
trim_space c s h = ground arith

trim_front : (p s : Bytes) → AreSpaces p → trim (p ++ s) ≡ trim s
unfolding AreSpaces
trim_front [] s h = refl
trim_front (c ∷ p) s h = trim_space c (p ++ s) h.0 ∙ trim_front p s h.1

trim_back : (s q : Bytes) → AreSpaces q → trim (s ++ q) ≡ trim s
unfolding trim
trim_back s q h = ap ltrim (rtrim-append s q h)

-- The name of a level may stand between spaces.
pub str_to_level_spaces :
    (p s q : Bytes)
    → All (λ c. is_space c ≡ true) p
    → All (λ c. is_space c ≡ true) q
    → str_to_level (p ++ (s ++ q)) ≡ str_to_level s
unfolding str_to_level AreSpaces
str_to_level_spaces p s q hp hq = rw (trim_front p (s ++ q) hp, trim_back s q hq) refl
