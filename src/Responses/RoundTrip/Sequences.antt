-- ===== src/Responses/RoundTrip/Sequences.antt =====
-- Responses with as many fields as there are items, of fq/_responses.py.
use fq_client_py.Prelude.{ℕ, ◌%◌, ◌≡◌, refl, List, [], ◌∷◌, length, map, All, arith}
use fq_client_py.Errors.{ok}
use fq_client_py.Python.Split.Laws.{Lacks, split-join}
use fq_client_py.Python.Utf8.Laws.{utf8, decode-utf8}
use fq_client_py.Python.Decimal.{decimal}
use fq_client_py.Types.{QuotaClientInfo, QuotaInfo, ScanKey, ScanResult}
use fq_client_py.Responses.{
  field_delimiter, parse_uints, parse_values, client_infos, scan_keys, parse_quota_info,
  quota_info_fields, parse_scan, scan_fields,
}
use fq_client_py.Responses.Numbers.{Fits, parse_uint-decimal}
use fq_client_py.Responses.Render.{
  reply, client_parts, quota_info_parts, scan_key_parts, scan_parts, IsClient, IsQuotaInfo,
  IsScanKey, IsScan,
}
use fq_client_py.Responses.RoundTrip.{ok_data-reply, decimal_field-Lacks, utf8-Lacks}

decimals-Lacks : (ns : List ℕ) → All (Lacks field_delimiter) (map decimal ns)
decimals-Lacks [] = tt
decimals-Lacks (n ∷ ns) = (decimal_field-Lacks n, decimals-Lacks ns)

parse_uints-decimals : (ns : List ℕ) → All Fits ns → parse_uints (map decimal ns) ≡ ok ns
unfolding parse_uints
parse_uints-decimals [] h = refl
parse_uints-decimals (n ∷ ns) (hn, h) = rw (parse_uint-decimal n hn, parse_uints-decimals ns h)

pub parse_values-reply :
    (n : ℕ) (ns : List ℕ)
    → All Fits (n ∷ ns)
    → parse_values (reply (map decimal (n ∷ ns))) ≡ ok (n ∷ ns)
unfolding parse_values
parse_values-reply n ns h =
    rw (ok_data-reply, split-join field_delimiter (decimal n) _ (decimals-Lacks (n ∷ ns)))
      (parse_uints-decimals (n ∷ ns) h)

clients-Lacks :
    (cs : List QuotaClientInfo) → All IsClient cs → All (Lacks field_delimiter) (client_parts cs)
clients-Lacks [] h = tt
clients-Lacks (c ∷ cs) ((id, _, _), h) = (
  utf8-Lacks c.client_id id,
  (decimal_field-Lacks c.amount, (decimal_field-Lacks c.expires_at, clients-Lacks cs h)),
)

client_infos-parts :
    (cs : List QuotaClientInfo) → All IsClient cs → client_infos (client_parts cs) ≡ ok cs
unfolding client_infos
client_infos-parts [] h = refl
client_infos-parts (c ∷ cs) ((id, a, t), h) = rw (
  parse_uint-decimal c.amount a,
  parse_uint-decimal c.expires_at t,
  client_infos-parts cs h,
  decode-utf8 c.client_id id.0,
)

length-client_parts : (cs : List QuotaClientInfo) → length (client_parts cs) % 3 ≡ 0
length-client_parts [] = refl
length-client_parts (c ∷ cs) = omega (arith, length-client_parts cs)

quota_info_fields-parts :
    (q : QuotaInfo) → IsQuotaInfo q → quota_info_fields (quota_info_parts q) ≡ ok q
unfolding quota_info_fields
quota_info_fields-parts q (l, u, m, cs) = rw (
  client_infos-parts q.clients cs,
  parse_uint-decimal q.limit l,
  parse_uint-decimal q.used u,
  parse_uint-decimal q.remaining m,
)

-- The report on a quota comes back with its clients in order, whatever their number.
pub parse_quota_info-reply :
    (q : QuotaInfo) → IsQuotaInfo q → parse_quota_info (reply (quota_info_parts q)) ≡ ok q
unfolding parse_quota_info
parse_quota_info-reply q (l, u, m, cs) =
    rw
      (
        ok_data-reply,
        split-join field_delimiter (decimal q.limit)
            (decimal q.used ∷ decimal q.remaining ∷ client_parts q.clients)
            (
              decimal_field-Lacks q.limit,
              (
                decimal_field-Lacks q.used,
                (decimal_field-Lacks q.remaining, clients-Lacks q.clients cs),
              ),
            ),
      )
      (ground (arith, length-client_parts q.clients, quota_info_fields-parts q (l, u, m, cs)))

keys-Lacks :
    (ks : List ScanKey) → All IsScanKey ks → All (Lacks field_delimiter) (scan_key_parts ks)
keys-Lacks [] h = tt
keys-Lacks (k ∷ ks) ((key, _), h) =
    (utf8-Lacks k.key key, (decimal_field-Lacks k.window, keys-Lacks ks h))

scan_keys-parts : (ks : List ScanKey) → All IsScanKey ks → scan_keys (scan_key_parts ks) ≡ ok ks
unfolding scan_keys
scan_keys-parts [] h = refl
scan_keys-parts (k ∷ ks) ((key, w), h) =
    rw (parse_uint-decimal k.window w, scan_keys-parts ks h, decode-utf8 k.key key.0)

length-scan_key_parts : (ks : List ScanKey) → length (scan_key_parts ks) % 2 ≡ 0
length-scan_key_parts [] = refl
length-scan_key_parts (k ∷ ks) = omega (arith, length-scan_key_parts ks)

scan_fields-parts : (r : ScanResult) → IsScan r → scan_fields (scan_parts r) ≡ ok r
unfolding scan_fields
scan_fields-parts r (c, ks) = rw (scan_keys-parts r.keys ks, decode-utf8 r.cursor c.0)

-- A page of a scan comes back with its cursor, and its keys in order, whatever their number.
pub parse_scan-reply : (r : ScanResult) → IsScan r → parse_scan (reply (scan_parts r)) ≡ ok r
unfolding parse_scan
parse_scan-reply r (c, ks) =
    rw
      (
        ok_data-reply,
        split-join field_delimiter (utf8 r.cursor) _ (utf8-Lacks r.cursor c, keys-Lacks r.keys ks),
      )
      (ground (arith, length-scan_key_parts r.keys, scan_fields-parts r (c, ks)))
