-- ===== src/Tests/Sessions.antt =====
-- Concrete sessions (src/session).
use liuzx_skf.Session.Auth.{on_device, auth_key_beq, AuthKey, check, new}
use liuzx_skf.Session.Auth.History.{AuthEvent, verified, checked, lost, run, spec, check-run}
use liuzx_skf.Session.Auth.Expiry.{is_live}
use liuzx_skf.Session.Handles.{
  ResourceKind, device, application, digest, issue, find, remove_handle, prefix, unknown,
  wrong_kind,
}
use liuzx_skf.Session.Handles
use liuzx_skf.Session.Handles.Kinds.{check_iff}
use liuzx_skf.Session.Handles.Lifecycle.{new-IsValid}
use liuzx_skf.Session.Handles.Access.{find-issue, find-remove_handle}
use liuzx_skf.Session.State.{session_id, session_id-injective}
use liuzx_skf.Provider.{GuardOf, DeviceHandle}
use liuzx_skf.Common.{
  if◌then◌else◌, is_ok, ok, err, Text, Bytes, text_eq, text, text_beq, decimal, ℕ, ◌≡◌, refl, ◌↔◌,
  true, false, none, List, [], ◌∷◌, ◌++◌, arith,
}
use liuzx_skf.Session.Handles.History.{HandleEvent, issued, removed, issues, Holds}
use liuzx_skf.Session.Handles.History
use liuzx_skf.Session.Handles.Reached.{find-run}
use liuzx_skf.Session.Handles.Kinds.{handle_of}

abbrev admin_key : AuthKey
admin_key = record { provider = text "FAKE"; device = text "dev"; application = text "app" }

-- A PIN verified at 5 is good at 7, and at 16 it is not, where a grant lasts 10.
abbrev history : List (ℕ × AuthEvent)
history = (5, verified admin_key) ∷ (6, checked admin_key) ∷ []

check-run_example :
    is_ok (check 7 admin_key (run history (new 10))).0 ≡ is_live 7 (spec 10 admin_key history none)
check-run_example = check-run 10 7 history admin_key (omega arith, (omega arith, omega arith))

live_test : is_live 7 (spec 10 admin_key history none) ≡ true
unfolding spec text text_beq on_device auth_key_beq
live_test = refl

expired_test : is_live 16 (spec 10 admin_key history none) ≡ false
unfolding spec text text_beq on_device auth_key_beq
expired_test = refl

lost_test :
    is_live 7 (spec 10 admin_key (history ++ (7, lost (text "FAKE") (text "dev")) ∷ []) none)
    ≡ false
unfolding spec text text_beq on_device auth_key_beq
lost_test = refl

abbrev guard : DeviceHandle
guard = record { value = 1000 }

abbrev empty_table : Handles.HandleTable GuardOf
empty_table = Handles.new

find-issue_example :
    (find device (issue device guard empty_table).0 empty_table ≡ err unknown)
    × (find device (issue device guard empty_table).0 (issue device guard empty_table).1 ≡ ok guard)
    × (find application (issue device guard empty_table).0 (issue device guard empty_table).1
        ≡ err wrong_kind)
    × (find digest [] (issue device guard empty_table).1 ≡ find digest [] empty_table)
unfolding issue Handles.new text decimal prefix
find-issue_example =
    find-issue device guard empty_table application digest [] new-IsValid (omega arith) (λ e. cc)
      (λ e. cc)

find-remove_handle_example :
    ((remove_handle device (text "dev-1") empty_table).0 ≡ find device (text "dev-1") empty_table)
    × (find device (text "dev-1") (remove_handle device (text "dev-1") empty_table).1 ≡ (
        if is_ok (find device (text "dev-1") empty_table)
        then err unknown
        else find device (text "dev-1") empty_table))
    × (find application [] (remove_handle device (text "dev-1") empty_table).1
        ≡ find application [] empty_table)
unfolding text
find-remove_handle_example =
    find-remove_handle device (text "dev-1") [] empty_table application (λ e. cc)

check_iff_example :
    (Handles.check (text "dev-1") device ≡ ok tt)
    ↔ ((rest : Text) × (text "dev-1" ≡ prefix device ++ b'-' ∷ rest))
check_iff_example = check_iff (text "dev-1") device

session_id-injective_example : ◌≡◌ {A = Bytes} (0x0A ∷ 0xFF ∷ []) (0x0A ∷ 0xFF ∷ [])
session_id-injective_example =
    session_id-injective (0x0A ∷ 0xFF ∷ []) (0x0A ∷ 0xFF ∷ []) (omega arith, (omega arith, tt))
      (omega arith, (omega arith, tt)) refl

session_id_test : session_id (0x0A ∷ 0xFF ∷ []) ≡ text "0aff"
unfolding session_id text
session_id_test = refl

abbrev handle_history : List (HandleEvent GuardOf)
handle_history = removed digest (text "dev-1") ∷ issued device guard ∷ []

find-run_example :
    (find device (text "dev-1") (History.run handle_history) ≡ ok guard)
    ↔ ((n : ℕ) × (text "dev-1" ≡ handle_of device n) × Holds handle_history device n guard)
unfolding issues
find-run_example = find-run handle_history device (text "dev-1") guard (omega arith)
