-- ===== src/Responses/Reuse.antt =====
-- The texts of a scan page of fq/_responses.py, and whether a command can carry them again.
use fq_client_py.Prelude.{
  ◌≡◌, Bool, subst, false, true, not, List, [], ◌∷◌, Str, Bytes, All, length, ◌==◌, ◌-◌, ◌%◌,
  if◌then◌else◌,
}
use fq_client_py.Errors.{ok, raise, bind-eq-ok, corrupted_response_error}
use fq_client_py.Python.Split.{split}
use fq_client_py.Python.Utf8.{encode, decode}
use fq_client_py.Python.Utf8.Laws.{encode-scalar}
use fq_client_py.Python.Utf8.Scalars.{decode-IsScalar}
use fq_client_py.Types.{ScanKey, ScanResult}
use fq_client_py.Responses.{
  ok_data, parse_uint, field_delimiter, scan_keys, scan_fields, parse_scan,
}

abbrev pub Encodable : Str → Type 0
Encodable s = (b : Bytes) × (encode s ≡ ok b)

abbrev KeyEncodable : ScanKey → Type 0
KeyEncodable k = Encodable k.key

decode-Encodable : (b : Bytes) → Encodable (decode b)
decode-Encodable b = encode-scalar (decode b) (decode-IsScalar b)

scan_keys-Encodable :
    (parts : List Bytes) (keys : List ScanKey) → scan_keys parts ≡ ok keys → All KeyEncodable keys
unfolding scan_keys
scan_keys-Encodable [] keys h = let same : ([] ≡ keys) = cc h in subst (All KeyEncodable) same tt
scan_keys-Encodable (key ∷ []) keys h = cc
scan_keys-Encodable (key ∷ window ∷ rest) keys h =
    let (w, h1, h2) = bind-eq-ok (parse_uint window) _ h in
    let (later, h3, h4) = bind-eq-ok (scan_keys rest) _ h2 in
    let same : (record { key = decode key; window = w } ∷ later ≡ keys) = cc h4 in
    subst (All KeyEncodable) same (decode-Encodable key, scan_keys-Encodable rest later h3)

abbrev pub Reusable : ScanResult → Type 0
Reusable r = Encodable r.cursor × All KeyEncodable r.keys

scan_fields-Reusable : (parts : List Bytes) (r : ScanResult) → scan_fields parts ≡ ok r → Reusable r
unfolding scan_fields
scan_fields-Reusable [] r h = cc
scan_fields-Reusable (cursor ∷ rest) r h =
    let (keys, h1, h2) = bind-eq-ok (scan_keys rest) _ h in
    subst Reusable (cc h2) (decode-Encodable cursor, scan_keys-Encodable rest keys h1)

even-Reusable :
    (odd : Bool) (parts : List Bytes) (r : ScanResult)
    → (if odd then raise corrupted_response_error else scan_fields parts) ≡ ok r
    → Reusable r
even-Reusable true parts r h = cc
even-Reusable false parts r h = scan_fields-Reusable parts r h

-- Whatever bytes the server sends: the cursor and every key of a scan page that `parse_scan` returns
-- can be encoded in a command again.
pub parse_scan-Reusable :
    (payload : Bytes) (r : ScanResult) → parse_scan payload ≡ ok r → Reusable r
unfolding parse_scan
parse_scan-Reusable payload r h =
    let (body, h1, h2) = bind-eq-ok (ok_data payload) _ h in
    even-Reusable (not ((length (split field_delimiter body) - 1) % 2 == 0))
      (split field_delimiter body) r h2
