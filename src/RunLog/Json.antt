-- ===== src/RunLog/Json.antt =====
-- src/state/database.ts `appendResultRecord` and `JSON.stringify`: the text of a log record. A
-- stream event carries its own text, since the log only stores it.
use Prim.Native.Char.{Char, code}
use Prim.Native.String
use Prim.Native.String.{String, [], ◌∷◌, len, slice}
use owner_operator.Prelude.{
  ℕ, ◌+◌, ◌/◌, ◌%◌, Option, none, some, if◌then◌else◌, nat_eq, ltb, truthy,
}
use owner_operator.AgentRuns.{
  Status, pending, running, completed, failed, cancelled, interrupted, lost,
}

pub data LogRecord : Type 0 where
  stream : (json : String) → LogRecord
  result : (run_id : String) (status : Status) (error : Option String) → LogRecord

unfoldable pub status_text : Status → String
status_text pending = "pending"
status_text running = "running"
status_text completed = "completed"
status_text failed = "failed"
status_text cancelled = "cancelled"
status_text interrupted = "interrupted"
status_text lost = "lost"

unfoldable pub hex : ℕ → String
hex n = slice "0123456789abcdef" n (n + 1)

unfoldable escape : Char → String
unfolding hex
escape c =
    let n = code c in
    if nat_eq n 34
    then "\\\""
    else if nat_eq n 92
    then "\\\\"
    else if nat_eq n 8
    then "\\b"
    else if nat_eq n 9
    then "\\t"
    else if nat_eq n 10
    then "\\n"
    else if nat_eq n 12
    then "\\f"
    else if nat_eq n 13
    then "\\r"
    else if ltb n 32
    then String.◌++◌ "\\u00" (String.◌++◌ (hex (n / 16)) (hex (n % 16)))
    else c ∷ []

unfoldable escaped : String → String
unfolding escape
escaped [] = ""
escaped (c ∷ s) = String.◌++◌ (escape c) (escaped s)

unfoldable pub quoted : String → String
unfolding escaped
quoted s = String.◌++◌ "\"" (String.◌++◌ (escaped s) "\"")

error_field : Option String → String
unfolding quoted
error_field none = ""
error_field (some message) =
    if truthy (some message)
    then String.◌++◌ ",\"error\":{\"message\":" (String.◌++◌ (quoted message) "}")
    else ""

unfoldable pub stringify : LogRecord → String
unfolding quoted error_field status_text
stringify (stream json) = json
stringify (result run_id status error) = String.◌++◌ "{\"type\":\"result\",\"runId\":" (
    String.◌++◌ (quoted run_id) (
      String.◌++◌ ",\"status\":"
        (String.◌++◌ (quoted (status_text status)) (String.◌++◌ (error_field error) "}"))))

-- `Buffer.byteLength` of the text.
unfoldable pub byte_length : LogRecord → ℕ
unfolding stringify
byte_length entry = len (stringify entry)
