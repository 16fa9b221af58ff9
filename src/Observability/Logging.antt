-- ===== src/Observability/Logging.antt =====
-- internal/observability/logging.go: the levels. `strings.ToLower` is a parameter.
use chroma_flow.Base.{String, ◌==◌, ◌||◌, if◌then◌else◌, trim_space}

pub data Level : Type 0 where
  debug info warn error : Level

unfoldable pub parse_log_level : (to_lower : String → String) → String → Level
parse_log_level to_lower level =
    let name = to_lower (trim_space level) in
    if name == "debug"
    then debug
    else if name == "warn" || name == "warning"
    then warn
    else if name == "error"
    then error
    else info
