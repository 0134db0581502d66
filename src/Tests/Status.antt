-- ===== src/Tests/Status.antt =====
-- The status file of src/service_state.rs at a concrete status.
use liuzx_skf.Common.{
  length, Text, Bytes, text_eq, text, get, ◌≡◌, refl, ap, ◌≢◌, Bool, true, false, Option, none,
  some, [], ◌∷◌, arith,
}
use liuzx_skf.Protocol.{Json}
use liuzx_skf.Logging.{Files}
use liuzx_skf.Server.{bind}
use liuzx_skf.Server.Status.{ServiceStatusFile, to_json, write_atomic, read}
use liuzx_skf.Server.Status.Phases
use liuzx_skf.Server.Status.Reading.{read-write_atomic}

abbrev test_status : ServiceStatusFile
test_status =
    Phases.failed bind 3 (text "address already in use") (some 42) (text "t1") (some (text "t0"))

abbrev test_text : Json → Bytes
test_text v = 1 ∷ []

abbrev test_parse : Bytes → Option Json
test_parse bytes = some (to_json test_status)

abbrev test_files : Files
test_files = (text "a", 2 ∷ []) ∷ (text "s.json", 3 ∷ []) ∷ []

abbrev test_written : Bool × Files
test_written =
    write_atomic (text "s.json.tmp") test_text test_parse false (text "s.json") test_status
      test_files

read-write_atomic_example :
    (test_written.0 ≡ true)
    × (read (text "s.json.tmp") test_text test_parse (text "s.json") test_written.1
        ≡ some test_status)
    × (get (text "s.json.tmp") test_written.1 ≡ none)
    × ((other : Text)
        → other ≢ text "s.json.tmp"
        → other ≢ text "s.json"
        → get other test_written.1 ≡ get other test_files)
unfolding Phases.failed text
read-write_atomic_example =
    read-write_atomic (text "s.json.tmp") test_text test_parse false (text "s.json") test_status
      test_files (λ e. longer (ap length e)) (omega arith) (omega arith) refl
  where
    longer : (length (text "s.json.tmp")) ≢ length (text "s.json")
    longer e = absurd (omega (arith, e))
