-- ===== src/Inspect/Outcome.antt =====
-- What parse_inspect of fq/inspect_types.py returns for the payload of a report, and what it raises.
use fq_client_py.Prelude.{◌≡◌, sym, ◌∙◌, ap, ◌⊎◌, inl, inr, Bytes, All, false}
use fq_client_py.Errors.{
  Exn, Result, ok, raise, is_value_error, corrupted_response_error, Result-cases,
}
use fq_client_py.Errors.Raises.{RaisesOnly}
use fq_client_py.Floats.{Floats}
use fq_client_py.Responses.{tag_ok}
use fq_client_py.Responses.Render.{response}
use fq_client_py.Responses.RoundTrip.{ok_data-reply}
use fq_client_py.Inspect.Json.{Json, object, Fields}
use fq_client_py.Inspect.Report.{InspectReport}
use fq_client_py.Inspect.Decode.{inspect_report, parse_inspect}
use fq_client_py.Inspect.Known.{report_fields}
use fq_client_py.Inspect.Known.Report.{inspect_report-only_fields}
use fq_client_py.Inspect.Shape.{only_fields}
use fq_client_py.Inspect.Render.{report_entries}
use fq_client_py.Inspect.Render.Back.{IsDetailed, inspect_report-report_entries}

module _ {fl : Floats} (loads : Bytes → Result (Json fl)) where
  parse_inspect-object :
      (document : Bytes) (raw : Fields fl)
      → loads document ≡ ok (object raw)
      → parse_inspect loads (response tag_ok document) ≡ ok (inspect_report raw)
  unfolding parse_inspect
  parse_inspect-object document raw h = rw (ok_data-reply document, h)

  -- Where the details of the warnings are dicts: a document that stands for the object of a report,
  -- with null for each section that is None, is decoded to the same report.
  pub parse_inspect-report_entries :
      (document : Bytes) (r : InspectReport fl)
      → loads document ≡ ok (object (report_entries r))
      → All IsDetailed r.warnings
      → parse_inspect loads (response tag_ok document) ≡ ok r
  parse_inspect-report_entries document r h detailed =
      parse_inspect-object document (report_entries r) h
      ∙ ap ok (inspect_report-report_entries r detailed)

  -- Two documents whose objects agree once the fields that the decoder does not know are left out, at
  -- every depth, are decoded to the same report.
  pub parse_inspect-only_fields :
      (document other : Bytes) (raw raw' : Fields fl)
      → loads document ≡ ok (object raw)
      → loads other ≡ ok (object raw')
      → only_fields report_fields raw ≡ only_fields report_fields raw'
      → (r : InspectReport fl) × (parse_inspect loads (response tag_ok document) ≡ ok r)
        × (parse_inspect loads (response tag_ok other) ≡ ok r)
  parse_inspect-only_fields document other raw raw' h h' agree =
      let same : inspect_report raw' ≡ inspect_report raw =
        sym (inspect_report-only_fields raw')
        ∙ ap inspect_report (sym agree)
        ∙ inspect_report-only_fields raw in
      (
        inspect_report raw,
        parse_inspect-object document raw h,
        parse_inspect-object other raw' h' ∙ ap ok same,
      )

  -- Whatever document an ok response holds, and however long: where `json.loads` raises nothing but
  -- ValueError on it, either it is an object and a report is returned, or CorruptedResponseError is
  -- raised.
  pub parse_inspect_returns :
      (document : Bytes)
      → RaisesOnly is_value_error (loads document)
      → ((raw : Fields fl) × (loads document ≡ ok (object raw))
          × (parse_inspect loads (response tag_ok document) ≡ ok (inspect_report raw)))
        ⊎ (parse_inspect loads (response tag_ok document) ≡ raise corrupted_response_error)
  unfolding parse_inspect
  parse_inspect_returns document h = elim (Result-cases (loads document)) [
    | inl (object raw, e) ↦ inl (raw, e, parse_inspect-object document raw e)
    | inl (v, e) ↦ inr (rw (ok_data-reply document, e))
    | inr (x, e) ↦ inr (rw (ok_data-reply document, e, h.at x e))
  ]

  -- An exception of `json.loads` that is no ValueError, such as RecursionError, comes through.
  pub parse_inspect_raises :
      (document : Bytes) (x : Exn)
      → loads document ≡ raise x
      → is_value_error x ≡ false
      → parse_inspect loads (response tag_ok document) ≡ raise x
  unfolding parse_inspect
  parse_inspect_raises document x h e = rw (ok_data-reply document, h, e)
