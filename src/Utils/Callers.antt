-- ===== src/Utils/Callers.antt =====
-- pkg/utils/utils.go: GetCallerInfo, a copy of the one in pkg/errors for another depth of the stack,
-- and its CallerInfo, whose String has no bars.
use vlanman.Prelude.{String, Option, none, some}
use vlanman.Prelude.Decimal.{decimal}
use vlanman.Prelude.Text.{◌⧺◌}
use vlanman.Errors.{GoError}
use vlanman.Errors.Texts.{CallerInfo, Stack, ◌>>=◌}
use vlanman.Errors.Texts

-- GetCallerInfo
abbrev pub get_caller_info : Stack → CallerInfo
get_caller_info = Texts.get_caller_info

-- CallerInfo.String, where `text` is the Error method.
abbrev pub caller_string : (GoError → Option String) → CallerInfo → Option String
caller_string text info = elim info.err [
  | some e ↦ do s ← text e; some ("Error extracting location information: " ⧺ s)
  | none ↦ some (info.function_name ⧺ " in file " ⧺ info.file ⧺ " at line " ⧺ decimal info.line)
]
