-- ===== src/Tests/Logging.antt =====
-- src/logging.rs at concrete values and lines.
use liuzx_skf.Common.{
  ltb, if◌then◌else◌, length, Text, Bytes, text_eq, text, text_beq, decimal, get, insert, ◌≤◌, ◌≡◌,
  refl, ◌⊎◌, false, none, some, List, [], ◌∷◌, ◌++◌, arith,
}
use liuzx_skf.Logging.{
  Files, Inner, sanitize, sanitize_max_chars, ellipsis, level_from_env, debug, new, log,
}
use liuzx_skf.Logging.Places.{slot}
use liuzx_skf.Logging.Sanitizing.{IsPrintable, Cleans, sanitize_lem}
use liuzx_skf.Logging.Retention.{
  Segments, log_all, log_all_segments, Represents, log_all-Represents, new-Represents,
}
use liuzx_skf.Logging.Bounds.{Retains, lines_text, log_all-Retains}

sanitize_lem_example :
    (cleaned : Text) × (rest : Text) × Cleans (text "a\nb") (cleaned ++ rest)
    × ((length cleaned ≡ sanitize_max_chars) ⊎ (rest ≡ []))
    × (length cleaned ≤ sanitize_max_chars)
    × (sanitize (text "a\nb")
        ≡ cleaned ++ (if ltb sanitize_max_chars (length (text "a\nb")) then ellipsis ∷ [] else []))
    × IsPrintable (sanitize (text "a\nb"))
sanitize_lem_example = sanitize_lem (text "a\nb")

sanitize_break : sanitize (text "a\nb") ≡ text "ab"
unfolding sanitize text
sanitize_break = refl

level_debug : level_from_env (some (text "skf=Debug")) ≡ debug
unfolding level_from_env text
level_debug = refl

abbrev test_lines : List Bytes
test_lines = (1 ∷ 2 ∷ []) ∷ (3 ∷ []) ∷ (4 ∷ 5 ∷ []) ∷ (6 ∷ 7 ∷ []) ∷ []

abbrev test_log : Inner × Files
test_log = new (text "skf.log") 1 []

log_all-Represents_example :
    Represents (log_all 5 test_lines test_log) (log_all_segments 5 1 test_lines ([], []))
unfolding new get
log_all-Represents_example =
    log_all-Represents 5 test_lines test_log ([], []) (omega arith)
      (new-Represents (text "skf.log") 1 [] (λ i h. refl))

log_all-Retains_example :
    (segments : Segments) × Represents (log_all 5 test_lines test_log) segments
    × Retains 5 1 3 (lines_text test_lines) segments
unfolding get
log_all-Retains_example =
    log_all-Retains 5 1 3 (text "skf.log") test_lines [] (omega arith) (omega arith)
      (omega arith, (omega arith, (omega arith, (omega arith, tt)))) (λ i h. refl)

-- The first two lines fill a file, which is dropped when the fourth has the third's moved on.
log_rotated : slot (text "skf.log") (log_all 5 test_lines test_log).1 1 ≡ some (4 ∷ 5 ∷ b'\n' ∷ [])
unfolding log_all new text get insert text_beq decimal
log_rotated = refl

-- Where the log does not open again, each further line moves the old files on and drops one.
log_unopened :
    (let (inner, fs) = log_all 5 test_lines test_log in
      let (inner', fs') = log false 5 (8 ∷ 8 ∷ []) inner fs in
      let (inner'', fs'') = log false 5 (9 ∷ 9 ∷ []) inner' fs' in slot (text "skf.log") fs'' 1)
    ≡ none
unfolding log log_all new text get insert text_beq decimal
log_unopened = refl
