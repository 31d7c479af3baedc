-- ===== src/Logging.antt =====
-- logging.h and logging.cc: severities and their names.
pub mod WriteOp
pub mod FileHead
pub mod LogFile
pub mod Buffer
pub mod Message
pub mod Check
pub mod Start
pub mod Routing
use openmi_base.Base.{ℕ, leb, if◌then◌else◌, ◌||◌, List, [], ◌∷◌}
use openmi_base.Base.Dict.{Text, text_eq}
use openmi_base.Base.Format.{codes}

-- LogSeverity; NUM_LEVELS counts them and is no severity.
pub data LogSeverity : Type 0 where
  trace debug info warn error fatal : LogSeverity

abbrev pub level : LogSeverity → ℕ
level trace = 0
level debug = 1
level info = 2
level warn = 3
level error = 4
level fatal = 5

-- severity_tags
abbrev pub severity_tag : LogSeverity → ℕ
severity_tag trace = b'T'
severity_tag debug = b'D'
severity_tag info = b'I'
severity_tag warn = b'W'
severity_tag error = b'E'
severity_tag fatal = b'F'

-- LOG_FILE_SEVERITIES
abbrev pub log_file_severities : ℕ
log_file_severities = 3

-- g_log_file_severity_names
abbrev pub log_file_severity_names : List Text
log_file_severity_names = codes "INFO" ∷ codes "WARN" ∷ codes "ERROR" ∷ []

-- GetLogFileSeverityIndex
unfoldable pub severity_index : LogSeverity → ℕ
severity_index severity =
    if leb (level severity) (level info)
    then 0
    else if leb (level severity) (level warn)
    then 1
    else 2

-- GetLogSeverityType
unfoldable pub severity_type : Text → LogSeverity
severity_type name =
    if text_eq name (codes "TRACE") || text_eq name (codes "DEBUG") || text_eq name (codes "INFO")
    then info
    else if text_eq name (codes "WARN")
    then warn
    else error
