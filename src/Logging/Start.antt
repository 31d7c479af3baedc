-- ===== src/Logging/Start.antt =====
-- logging.cc: InitLogging and ShutdownLogging.
use openmi_base.Base.{Option, none, some, ◌>>=◌}
use openmi_base.Base.Dict.{Text}
use openmi_base.Base.Format.{codes}
use openmi_base.Logging.Message.{Globals, delete_log_destinations}
use openmi_base.Logging.Buffer.{short_file_name}

-- InitLogging with the name of the program; none is the fatal end of a second call.
unfoldable pub init_logging : Option Text → Globals → Option Globals
init_logging argv0 g = elim g.invocation_short_name [
  | some name ↦ none
  | none ↦
      let name : Text = elim argv0 [ some path ↦ short_file_name path | none ↦ codes "logging" ] in
      some (record g { program_name = some name; invocation_short_name = some name })
]

-- InitLogging with a directory too.
unfoldable pub init_logging_dir : Option Text → Option Text → Globals → Option Globals
init_logging_dir argv0 log_dir g = do
  g' ← init_logging argv0 g
  some (elim log_dir [ none ↦ g' | some dir ↦ record g' { log_dir = dir } ])

-- ShutdownLogging, but for the thread's dates.
unfoldable pub shutdown_logging : Globals → Globals
shutdown_logging g = delete_log_destinations g
