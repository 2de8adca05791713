-- ===== src/Inspect/Known/Report.antt =====
-- A report of fq/inspect_types.py without the fields that the decoder does not know, at every depth.
use fq_client_py.Prelude.{
  pos, false, ◌≡◌, refl, ap, List, [], ◌∷◌, map, Option, none, some, text, str_eq,
}
use mathlib.Core.Option
use fq_client_py.Floats.{Floats}
use fq_client_py.Inspect.Json.{Fields, boolean, integer, string}
use fq_client_py.Inspect.Decode.{
  instance_info, persistence_info, wal_info, dump_info, slave_info, replica_info, repl_info,
  partition_stat, engine_info, subscriber_info, streams_info, inspect_warning, inspect_report,
  subscribers, section_of, items_of,
}
use fq_client_py.Inspect.Shape.{
  Known, shape_of, only_fields, get_or-only_fields, section_of-only_fields, items_of-only_fields,
}
use fq_client_py.Inspect.Known.{
  instance_fields, persistence_fields, wal_fields, dump_fields, slave_fields, replica_fields,
  repl_fields, partition_fields, engine_fields, subscriber_fields, streams_fields, warning_fields,
  report_fields,
}
use fq_client_py.Inspect.Known.Parts.{
  instance_info-only_fields, persistence_info-only_fields, wal_info-only_fields,
  dump_info-only_fields, slave_info-only_fields, replica_info-only_fields,
  partition_stat-only_fields, subscriber_info-only_fields, inspect_warning-only_fields,
}

module _ {fl : Floats} where
  map-only :
      {A : Type 0} (read : Fields fl → A) (ks : Known)
      → ((raw : Fields fl) → read (only_fields ks raw) ≡ read raw)
      → (xs : List (Fields fl)) → map read (map (only_fields ks) xs) ≡ map read xs
  map-only read ks h [] = refl
  map-only read ks h (x ∷ xs) = rw (h x, map-only read ks h xs)

  Option_map-only :
      {A : Type 0} (read : Fields fl → A) (ks : Known)
      → ((raw : Fields fl) → read (only_fields ks raw) ≡ read raw)
      → (o : Option (Fields fl))
      → Option.map read (Option.map (only_fields ks) o) ≡ Option.map read o
  Option_map-only read ks h none = refl
  Option_map-only read ks h (some x) = ap some (h x)

  repl_info-only_fields :
      (raw : Fields fl) → repl_info (only_fields repl_fields raw) ≡ repl_info raw
  unfolding repl_info shape_of str_eq
  repl_info-only_fields raw =
      let same = get_or-only_fields repl_fields raw in
      rw (
        same (text "role") (string []) refl,
        same (text "known_replicas") (integer (pos 0)) refl,
        items_of-only_fields repl_fields raw (text "replicas") replica_fields refl,
        map-only replica_info replica_fields replica_info-only_fields
            (items_of raw (text "replicas")),
        section_of-only_fields repl_fields raw (text "slave") slave_fields refl,
        Option_map-only slave_info slave_fields slave_info-only_fields
            (section_of raw (text "slave")),
        same (text "truncated") (boolean false) refl,
      )

  engine_info-only_fields :
      (raw : Fields fl) → engine_info (only_fields engine_fields raw) ≡ engine_info raw
  unfolding engine_info shape_of str_eq
  engine_info-only_fields raw =
      let same = get_or-only_fields engine_fields raw in
      rw (
        same (text "partitions") (integer (pos 0)) refl,
        same (text "counters") (integer (pos 0)) refl,
        same (text "sliding_windows") (integer (pos 0)) refl,
        same (text "token_buckets") (integer (pos 0)) refl,
        same (text "quotas") (integer (pos 0)) refl,
        same (text "quota_allocations") (integer (pos 0)) refl,
        same (text "key_index_enabled") (boolean false) refl,
        items_of-only_fields engine_fields raw (text "per_partition") partition_fields refl,
        map-only partition_stat partition_fields partition_stat-only_fields
            (items_of raw (text "per_partition")),
      )

  streams_info-only_fields :
      (raw : Fields fl) → streams_info (only_fields streams_fields raw) ≡ streams_info raw
  unfolding streams_info subscribers shape_of str_eq
  streams_info-only_fields raw =
      let same = get_or-only_fields streams_fields raw in
      rw (
        items_of-only_fields streams_fields raw (text "limit_subscribers") subscriber_fields refl,
        map-only subscriber_info subscriber_fields subscriber_info-only_fields
            (items_of raw (text "limit_subscribers")),
        items_of-only_fields streams_fields raw (text "quota_subscribers") subscriber_fields refl,
        map-only subscriber_info subscriber_fields subscriber_info-only_fields
            (items_of raw (text "quota_subscribers")),
        same (text "limit_events_dropped_total") (integer (pos 0)) refl,
        same (text "quota_events_dropped_total") (integer (pos 0)) refl,
      )

  -- A report without the fields that the decoder does not know, at every depth, is decoded to the same
  -- report.
  pub inspect_report-only_fields :
      (raw : Fields fl) → inspect_report (only_fields report_fields raw) ≡ inspect_report raw
  unfolding inspect_report shape_of str_eq
  inspect_report-only_fields raw =
      let same = get_or-only_fields report_fields raw in
      rw (
        same (text "section") (string []) refl,
        same (text "ts") (integer (pos 0)) refl,
        section_of-only_fields report_fields raw (text "instance") instance_fields refl,
        Option_map-only instance_info instance_fields instance_info-only_fields
            (section_of raw (text "instance")),
        section_of-only_fields report_fields raw (text "persistence") persistence_fields refl,
        Option_map-only persistence_info persistence_fields persistence_info-only_fields
            (section_of raw (text "persistence")),
        section_of-only_fields report_fields raw (text "wal") wal_fields refl,
        Option_map-only wal_info wal_fields wal_info-only_fields (section_of raw (text "wal")),
        section_of-only_fields report_fields raw (text "dump") dump_fields refl,
        Option_map-only dump_info dump_fields dump_info-only_fields (section_of raw (text "dump")),
        section_of-only_fields report_fields raw (text "repl") repl_fields refl,
        Option_map-only repl_info repl_fields repl_info-only_fields (section_of raw (text "repl")),
        section_of-only_fields report_fields raw (text "engine") engine_fields refl,
        Option_map-only engine_info engine_fields engine_info-only_fields
            (section_of raw (text "engine")),
        section_of-only_fields report_fields raw (text "streams") streams_fields refl,
        Option_map-only streams_info streams_fields streams_info-only_fields
            (section_of raw (text "streams")),
        items_of-only_fields report_fields raw (text "warnings") warning_fields refl,
        map-only inspect_warning warning_fields inspect_warning-only_fields
            (items_of raw (text "warnings")),
      )
