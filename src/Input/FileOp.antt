-- ===== src/Input/FileOp.antt =====
-- file_op.h, FileOp. What access, mkdir and rmdir answer is an argument, as whether they return 0; the
-- value -1 that is returned for a null path is true as a bool.
use openmi_base.Base.{Bool, true, Option, none, some}
use openmi_base.Base.Dict.{Text}

abbrev pub access_dir : (Text → Bool) → Option Text → Bool
access_dir accesses none = true
access_dir accesses (some path) = accesses path

abbrev pub mk_dir : (Text → Bool) → Option Text → Bool
mk_dir makes none = true
mk_dir makes (some path) = makes path

abbrev pub rm_dir : (Text → Bool) → Option Text → Bool
rm_dir removes none = true
rm_dir removes (some path) = removes path
