-- ===== src/Tests/Reports.antt =====
-- The INSPECT reports of fq/inspect_types.py on small documents.
use fq_client_py.Prelude.{
  ◌≡◌, refl, ◌⊎◌, [], ◌∷◌, none, some, pos, true, Bytes, text, str_eq, if◌then◌else◌,
}
use fq_client_py.Errors.{Result, ok, raise, value_error, corrupted_response_error, is_value_error}
use fq_client_py.Errors.Raises.{RaisesOnly, RaisesOnly-raise}
use fq_client_py.Responses.{tag_ok}
use fq_client_py.Responses.Render.{response}
use fq_client_py.Inspect.Json.{Json, null, boolean, integer, string, object, Fields, end, entry}
use fq_client_py.Inspect.Report.{InspectReport, PersistenceInfo, InspectWarning}
use fq_client_py.Inspect.Decode.{parse_inspect, inspect_report}
use fq_client_py.Inspect.Shape.{shape_of, only, only_fields}
use fq_client_py.Inspect.Known.{report_fields}
use fq_client_py.Inspect.Render.{report_entries}
use fq_client_py.Inspect.Outcome.{
  parse_inspect-report_entries, parse_inspect-only_fields, parse_inspect_returns,
}
use fq_client_py.Tests.Network.{seconds}

abbrev mode : PersistenceInfo seconds
mode = record { mode = string (text "wal"); sync_commit = null }

abbrev lagging : InspectWarning seconds
lagging = record {
  code = string (text "lag");
  severity = string (text "warn");
  message = string [];
  details = object (entry (text "lsn") (integer (pos 7)) end);
}

abbrev sample : InspectReport seconds
sample = record {
  section = string (text "summary");
  ts = integer (pos 12);
  instance = none;
  persistence = some mode;
  wal = none;
  dump = none;
  repl = none;
  engine = none;
  streams = none;
  warnings = lagging ∷ [];
}

-- A field that the decoder does not know, in front of the known ones.
abbrev newer : Fields seconds
newer = entry (text "uptime") (boolean true) (report_entries sample)

abbrev loads : Bytes → Result (Json seconds)
loads document =
    if str_eq document (text "old")
    then ok (object (report_entries sample))
    else if str_eq document (text "new")
    then ok (object newer)
    else raise value_error

loads_old : loads (text "old") ≡ ok (object (report_entries sample))
unfolding str_eq
loads_old = refl

loads_new : loads (text "new") ≡ ok (object newer)
unfolding str_eq
loads_new = refl

loads_other : loads (text "?") ≡ raise value_error
unfolding str_eq
loads_other = refl

uptime_ignored : only_fields report_fields (report_entries sample) ≡ only_fields report_fields newer
unfolding only shape_of str_eq
uptime_ignored = refl

parse_inspect-report_entries_example :
    parse_inspect loads (response tag_ok (text "old")) ≡ ok sample
parse_inspect-report_entries_example =
    parse_inspect-report_entries loads (text "old") sample loads_old
      ((entry (text "lsn") (integer (pos 7)) end, refl), tt)

parse_inspect-only_fields_example :
    (r : InspectReport seconds) × (parse_inspect loads (response tag_ok (text "old")) ≡ ok r)
    × (parse_inspect loads (response tag_ok (text "new")) ≡ ok r)
parse_inspect-only_fields_example =
    parse_inspect-only_fields loads (text "old") (text "new") (report_entries sample) newer
      loads_old loads_new uptime_ignored

refused : RaisesOnly is_value_error (loads (text "?"))
unfolding is_value_error str_eq
refused = RaisesOnly-raise value_error refl

parse_inspect_returns_example :
    ((raw : Fields seconds) × (loads (text "?") ≡ ok (object raw))
      × (parse_inspect loads (response tag_ok (text "?")) ≡ ok (inspect_report raw)))
    ⊎ (parse_inspect loads (response tag_ok (text "?")) ≡ raise corrupted_response_error)
parse_inspect_returns_example = parse_inspect_returns loads (text "?") refused
