-- ===== src/Inspect/Known.antt =====
-- The fields that the decoders of fq/inspect_types.py know, by the object that holds them.
pub mod Parts
pub mod Report
use fq_client_py.Prelude.{
  pos, false, ◌≡◌, refl, ap, List, [], ◌∷◌, map, Option, none, some, text, str_eq,
}
use mathlib.Core.Option
use fq_client_py.Floats.{Floats}
use fq_client_py.Inspect.Json.{Fields, null, boolean, integer, floating, string}
use fq_client_py.Inspect.Decode.{
  instance_info, persistence_info, wal_info, dump_info, slave_info, replica_info, repl_info,
  partition_stat, engine_info, subscriber_info, streams_info, inspect_warning, inspect_report,
  subscribers, section_of, items_of,
}
use fq_client_py.Inspect.Shape.{
  Known, no_more, known, one_of, list_of, wholes, shape_of, only_fields, get_or-only_fields,
  section_of-only_fields, items_of-only_fields,
}

abbrev pub instance_fields : Known
instance_fields =
    wholes
      (text "version"
        ∷ text "commit"
        ∷ text "build_date"
        ∷ text "go_version"
        ∷ text "platform"
        ∷ text "uptime_sec"
        ∷ text "pid"
        ∷ text "role"
        ∷ text "replica_id"
        ∷ text "listen_addr"
        ∷ text "connections"
        ∷ [])
      no_more

abbrev pub persistence_fields : Known
persistence_fields = wholes (text "mode" ∷ text "sync_commit" ∷ []) no_more

abbrev pub wal_fields : Known
wal_fields =
    wholes
      (text "enabled"
        ∷ text "sync_commit"
        ∷ text "data_directory"
        ∷ text "queue_depth"
        ∷ text "queue_capacity"
        ∷ text "lsn_assigned"
        ∷ text "lsn_flushed"
        ∷ text "segment_path"
        ∷ text "segment_size_bytes"
        ∷ text "last_flush_at"
        ∷ text "last_flush_duration_ms"
        ∷ text "flush_avg_duration_ms"
        ∷ text "flush_total"
        ∷ [])
      no_more

abbrev pub dump_fields : Known
dump_fields =
    wholes
      (text "enabled"
        ∷ text "directory"
        ∷ text "interval_sec"
        ∷ text "last_dump_at"
        ∷ text "last_dump_duration_ms"
        ∷ text "last_dump_error"
        ∷ text "last_dump_tx"
        ∷ text "current_dump_path"
        ∷ text "current_dump_size_bytes"
        ∷ text "next_dump_at"
        ∷ [])
      no_more

abbrev pub slave_fields : Known
slave_fields =
    wholes
      (text "master_address"
        ∷ text "connected"
        ∷ text "last_segment_name"
        ∷ text "last_applied_lsn"
        ∷ text "consecutive_errors"
        ∷ text "reconnect_total"
        ∷ text "last_reconnect_at"
        ∷ text "updated_at"
        ∷ [])
      no_more

abbrev pub replica_fields : Known
replica_fields =
    wholes
      (text "replica_id"
        ∷ text "last_segment_name"
        ∷ text "last_applied_lsn"
        ∷ text "lag_lsn"
        ∷ text "lag_sec"
        ∷ text "stale"
        ∷ text "updated_at"
        ∷ [])
      no_more

abbrev pub repl_fields : Known
repl_fields = wholes (text "role" ∷ text "known_replicas" ∷ text "truncated" ∷ []) (
    known (text "replicas") (list_of replica_fields)
      (known (text "slave") (one_of slave_fields) no_more))

abbrev pub partition_fields : Known
partition_fields =
    wholes
      (text "index"
        ∷ text "counters"
        ∷ text "sliding_windows"
        ∷ text "token_buckets"
        ∷ text "quotas"
        ∷ text "quota_allocations"
        ∷ [])
      no_more

abbrev pub engine_fields : Known
engine_fields =
    wholes
      (text "partitions"
        ∷ text "counters"
        ∷ text "sliding_windows"
        ∷ text "token_buckets"
        ∷ text "quotas"
        ∷ text "quota_allocations"
        ∷ text "key_index_enabled"
        ∷ [])
      (known (text "per_partition") (list_of partition_fields) no_more)

abbrev pub subscriber_fields : Known
subscriber_fields =
    wholes (text "prefix" ∷ text "queue_len" ∷ text "queue_cap" ∷ text "dropped" ∷ []) no_more

abbrev pub streams_fields : Known
streams_fields =
    wholes (text "limit_events_dropped_total" ∷ text "quota_events_dropped_total" ∷ []) (
      known (text "limit_subscribers") (list_of subscriber_fields)
        (known (text "quota_subscribers") (list_of subscriber_fields) no_more))

abbrev pub warning_fields : Known
warning_fields =
    wholes (text "code" ∷ text "severity" ∷ text "message" ∷ text "details" ∷ []) no_more

abbrev pub report_fields : Known
report_fields = wholes (text "section" ∷ text "ts" ∷ []) (
    known (text "instance") (one_of instance_fields) (
      known (text "persistence") (one_of persistence_fields) (
        known (text "wal") (one_of wal_fields) (
          known (text "dump") (one_of dump_fields) (
            known (text "repl") (one_of repl_fields) (
              known (text "engine") (one_of engine_fields) (
                known (text "streams") (one_of streams_fields)
                  (known (text "warnings") (list_of warning_fields) no_more))))))))
