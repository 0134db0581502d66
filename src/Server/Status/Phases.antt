-- ===== src/Server/Status/Phases.antt =====
-- src/service_state.rs: `ServiceStatusFile::pending` and its like.
use liuzx_skf.Common.{Text, text_eq, ℕ, Option, none, some}
use liuzx_skf.Server.{StartupStage}
use liuzx_skf.Server.Status.{ServiceState, ServiceStatusFile}

unfoldable pub pending : StartupStage → Option ℕ → Text → Option Text → ServiceStatusFile
pending stage pid updated started_at = record {
  state = ServiceState.start_pending;
  stage = stage;
  code = none;
  reason = none;
  pid = pid;
  address = none;
  updated = some updated;
  started_at = started_at;
}

unfoldable pub running : Text → Option ℕ → Text → Option Text → ServiceStatusFile
running address pid updated started_at = record {
  state = ServiceState.running;
  stage = StartupStage.serve;
  code = none;
  reason = none;
  pid = pid;
  address = some address;
  updated = some updated;
  started_at = started_at;
}

unfoldable pub failed : StartupStage → ℕ → Text → Option ℕ → Text → Option Text → ServiceStatusFile
failed stage code reason pid updated started_at = record {
  state = ServiceState.failed;
  stage = stage;
  code = some code;
  reason = some reason;
  pid = pid;
  address = none;
  updated = some updated;
  started_at = started_at;
}

unfoldable pub stopped : Text → Option Text → ServiceStatusFile
stopped updated started_at = record {
  state = ServiceState.stopped;
  stage = StartupStage.serve;
  code = none;
  reason = none;
  pid = none;
  address = none;
  updated = some updated;
  started_at = started_at;
}
