-- ===== src/Inspect/Known/Parts.antt =====
-- The objects of a report of fq/inspect_types.py that hold no others, without the fields that the decoder
-- does not know.
use fq_client_py.Prelude.{pos, false, ◌≡◌, refl, [], text, str_eq}
use fq_client_py.Floats.{Floats}
use fq_client_py.Inspect.Json.{Fields, null, boolean, integer, floating, string}
use fq_client_py.Inspect.Decode.{
  instance_info, persistence_info, wal_info, dump_info, slave_info, replica_info, partition_stat,
  subscriber_info, inspect_warning,
}
use fq_client_py.Inspect.Shape.{shape_of, only_fields, get_or-only_fields}
use fq_client_py.Inspect.Known.{
  instance_fields, persistence_fields, wal_fields, dump_fields, slave_fields, replica_fields,
  partition_fields, subscriber_fields, warning_fields,
}

module _ {fl : Floats} where
  pub instance_info-only_fields :
      (raw : Fields fl) → instance_info (only_fields instance_fields raw) ≡ instance_info raw
  unfolding instance_info shape_of str_eq
  instance_info-only_fields raw =
      let same = get_or-only_fields instance_fields raw in
      rw (
        same (text "version") (string []) refl,
        same (text "commit") (string []) refl,
        same (text "build_date") (string []) refl,
        same (text "go_version") (string []) refl,
        same (text "platform") (string []) refl,
        same (text "uptime_sec") (floating fl.zero_float) refl,
        same (text "pid") (integer (pos 0)) refl,
        same (text "role") (string []) refl,
        same (text "replica_id") null refl,
        same (text "listen_addr") (string []) refl,
        same (text "connections") (integer (pos 0)) refl,
      )

  pub persistence_info-only_fields :
      (raw : Fields fl)
      → persistence_info (only_fields persistence_fields raw) ≡ persistence_info raw
  unfolding persistence_info shape_of str_eq
  persistence_info-only_fields raw =
      let same = get_or-only_fields persistence_fields raw in
      rw (same (text "mode") (string []) refl, same (text "sync_commit") null refl)

  pub wal_info-only_fields :
      (raw : Fields fl) → wal_info (only_fields wal_fields raw) ≡ wal_info raw
  unfolding wal_info shape_of str_eq
  wal_info-only_fields raw =
      let same = get_or-only_fields wal_fields raw in
      rw (
        same (text "enabled") (boolean false) refl,
        same (text "sync_commit") null refl,
        same (text "data_directory") null refl,
        same (text "queue_depth") null refl,
        same (text "queue_capacity") null refl,
        same (text "lsn_assigned") (integer (pos 0)) refl,
        same (text "lsn_flushed") null refl,
        same (text "segment_path") null refl,
        same (text "segment_size_bytes") null refl,
        same (text "last_flush_at") null refl,
        same (text "last_flush_duration_ms") null refl,
        same (text "flush_avg_duration_ms") null refl,
        same (text "flush_total") null refl,
      )

  pub dump_info-only_fields :
      (raw : Fields fl) → dump_info (only_fields dump_fields raw) ≡ dump_info raw
  unfolding dump_info shape_of str_eq
  dump_info-only_fields raw =
      let same = get_or-only_fields dump_fields raw in
      rw (
        same (text "enabled") (boolean false) refl,
        same (text "directory") null refl,
        same (text "interval_sec") null refl,
        same (text "last_dump_at") null refl,
        same (text "last_dump_duration_ms") null refl,
        same (text "last_dump_error") null refl,
        same (text "last_dump_tx") null refl,
        same (text "current_dump_path") null refl,
        same (text "current_dump_size_bytes") null refl,
        same (text "next_dump_at") null refl,
      )

  pub slave_info-only_fields :
      (raw : Fields fl) → slave_info (only_fields slave_fields raw) ≡ slave_info raw
  unfolding slave_info shape_of str_eq
  slave_info-only_fields raw =
      let same = get_or-only_fields slave_fields raw in
      rw (
        same (text "master_address") (string []) refl,
        same (text "connected") (boolean false) refl,
        same (text "last_segment_name") (string []) refl,
        same (text "last_applied_lsn") (integer (pos 0)) refl,
        same (text "consecutive_errors") (integer (pos 0)) refl,
        same (text "reconnect_total") (integer (pos 0)) refl,
        same (text "last_reconnect_at") null refl,
        same (text "updated_at") (integer (pos 0)) refl,
      )

  pub replica_info-only_fields :
      (raw : Fields fl) → replica_info (only_fields replica_fields raw) ≡ replica_info raw
  unfolding replica_info shape_of str_eq
  replica_info-only_fields raw =
      let same = get_or-only_fields replica_fields raw in
      rw (
        same (text "replica_id") (string []) refl,
        same (text "last_segment_name") (string []) refl,
        same (text "last_applied_lsn") (integer (pos 0)) refl,
        same (text "lag_lsn") (integer (pos 0)) refl,
        same (text "lag_sec") (floating fl.zero_float) refl,
        same (text "stale") (boolean false) refl,
        same (text "updated_at") (integer (pos 0)) refl,
      )

  pub partition_stat-only_fields :
      (raw : Fields fl) → partition_stat (only_fields partition_fields raw) ≡ partition_stat raw
  unfolding partition_stat shape_of str_eq
  partition_stat-only_fields raw =
      let same = get_or-only_fields partition_fields raw in
      rw (
        same (text "index") (integer (pos 0)) refl,
        same (text "counters") (integer (pos 0)) refl,
        same (text "sliding_windows") (integer (pos 0)) refl,
        same (text "token_buckets") (integer (pos 0)) refl,
        same (text "quotas") (integer (pos 0)) refl,
        same (text "quota_allocations") (integer (pos 0)) refl,
      )

  pub subscriber_info-only_fields :
      (raw : Fields fl) → subscriber_info (only_fields subscriber_fields raw) ≡ subscriber_info raw
  unfolding subscriber_info shape_of str_eq
  subscriber_info-only_fields raw =
      let same = get_or-only_fields subscriber_fields raw in
      rw (
        same (text "prefix") null refl,
        same (text "queue_len") (integer (pos 0)) refl,
        same (text "queue_cap") (integer (pos 0)) refl,
        same (text "dropped") (integer (pos 0)) refl,
      )

  pub inspect_warning-only_fields :
      (raw : Fields fl) → inspect_warning (only_fields warning_fields raw) ≡ inspect_warning raw
  unfolding inspect_warning shape_of str_eq
  inspect_warning-only_fields raw =
      let same = get_or-only_fields warning_fields raw in
      rw (
        same (text "code") (string []) refl,
        same (text "severity") (string []) refl,
        same (text "message") (string []) refl,
        same (text "details") null refl,
      )
