-- ===== src/Common/Log.antt =====
-- Logging by level (common/include/log.h, common/src/log.c): what is written, without the time of
-- day, the file name and the line number in front of each message.
use rasta_s.Prelude.{
  ℕ, ◌≡◌, refl, ap, List, [], ◌∷◌, ◌++◌, false, if◌then◌else◌, ltb, Bool-cases, inl, inr,
}

pub data LogLevel : Type 0 where
  log_debug log_info log_warning log_error : LogLevel

-- The values of the enumeration.
abbrev pub rank : LogLevel → ℕ
rank log_debug = 0
rank log_info = 1
rank log_warning = 2
rank log_error = 3

-- `LOG_LEVEL_FILTER`, and what was written to `stderr`, the latest first.
pub record LogState : Type 0 where
  pub level_filter : LogLevel
  pub written : List (LogLevel × List ℕ)

-- The static variable before the first call.
abbrev pub initial_log : LogState
initial_log = record { level_filter = log_debug; written = [] }

abbrev pub get_loglevel_filter : LogState → LogLevel
get_loglevel_filter s = s.level_filter

abbrev pub set_loglevel_filter : LogLevel → LogState → LogState
set_loglevel_filter level s = record s { level_filter = level }

-- The macro `LOG`: `if (level >= get_loglevel_filter()) fprintf(stderr, ...)`.
unfoldable pub log : LogLevel → List ℕ → LogState → LogState
log level text s =
    if ltb (rank level) (rank (get_loglevel_filter s))
    then s
    else record s { written = (level, text) ∷ s.written }

-- What the macros put before the text.
abbrev pub prefix : LogLevel → List ℕ
prefix log_debug = b'D' ∷ b'E' ∷ b'B' ∷ b'U' ∷ b'G' ∷ b':' ∷ b' ' ∷ []
prefix log_info = b'I' ∷ b'N' ∷ b'F' ∷ b'O' ∷ b':' ∷ b' ' ∷ []
prefix log_warning = b'W' ∷ b'A' ∷ b'R' ∷ b'N' ∷ b'I' ∷ b'N' ∷ b'G' ∷ b':' ∷ b' ' ∷ []
prefix log_error = b'E' ∷ b'R' ∷ b'R' ∷ b'O' ∷ b'R' ∷ b':' ∷ b' ' ∷ []

-- The macros `LOG_DEBUG` to `LOG_ERROR`.
unfoldable pub log_message : LogLevel → List ℕ → LogState → LogState
log_message level text s = log level (prefix level ++ text) s

-- Several calls one after the other.
abbrev pub log_all : List (LogLevel × List ℕ) → LogState → LogState
log_all [] s = s
log_all (call ∷ rest) s = log_all rest (log_message call.0 call.1 s)

-- The lines at a level or above.
abbrev pub at_least : LogLevel → List (LogLevel × List ℕ) → List (LogLevel × List ℕ)
at_least level [] = []
at_least level (line ∷ rest) =
    if ltb (rank line.0) (rank level) then at_least level rest else line ∷ at_least level rest

-- One state has the lines of the other that its filter lets through.
record Follows (level : LogLevel) (s t : LogState) : Type 0 where
  filter_is : s.level_filter ≡ level
  all_pass : t.level_filter ≡ log_debug
  lines_are : s.written ≡ at_least level t.written

debug_passes : (l : LogLevel) → ltb (rank l) (rank log_debug) ≡ false
debug_passes log_debug = refl
debug_passes _ = refl

log-Follows :
    (level l : LogLevel) (text : List ℕ) (s t : LogState)
    → Follows level s t
    → Follows level (log l text s) (log l text t)
unfolding log
log-Follows level l text s t f = elim (Bool-cases (ltb (rank l) (rank level))) [
  | inl below ↦
      rw (f.filter_is, below, f.all_pass, debug_passes l)
        (record { filter_is = refl; all_pass = refl; lines_are = rw below f.lines_are })
  | inr above ↦
      rw (f.filter_is, above, f.all_pass, debug_passes l)
        (record {
          filter_is = refl;
          all_pass = refl;
          lines_are = rw above (ap (◌∷◌ (l, text)) f.lines_are);
        })
]

log_all-Follows :
    (level : LogLevel) (calls : List (LogLevel × List ℕ)) (s t : LogState)
    → Follows level s t
    → Follows level (log_all calls s) (log_all calls t)
unfolding log_message
log_all-Follows level [] s t f = f
log_all-Follows level (call ∷ rest) s t f =
    log_all-Follows level rest _ _ (log-Follows level call.0 (prefix call.0 ++ call.1) s t f)

-- After set_loglevel_filter, any log calls write, in their order, exactly the lines at that level
-- or above of those that the same calls write with the filter that the program starts with.
pub log_all-at_least :
    (level : LogLevel) (calls : List (LogLevel × List ℕ))
    → (log_all calls (set_loglevel_filter level initial_log)).written
      ≡ at_least level (log_all calls initial_log).written
log_all-at_least level calls =
    (log_all-Follows level calls _ initial_log
      (record { filter_is = refl; all_pass = refl; lines_are = refl })).lines_are
