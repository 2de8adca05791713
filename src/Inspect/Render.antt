-- ===== src/Inspect/Render.antt =====
-- The INSPECT report of fq/inspect_types.py as a JSON object, field by field. A section that is None is null in the object.
pub mod Back
use fq_client_py.Prelude.{
  ◌≡◌, refl, ap, ap₂, subst, sym, List, [], ◌∷◌, map, Option, none, some, text, str_eq, All,
  All-all, All-map,
}
use mathlib.Core.Option
use fq_client_py.Floats.{Floats}
use fq_client_py.Inspect.Json.{
  Json, null, array, object, Items, nil, cons, Fields, end, entry, lookup, or_else,
}
use fq_client_py.Inspect.Report.{
  InstanceInfo, PersistenceInfo, WalInfo, DumpInfo, SlaveInfo, ReplicaInfo, ReplInfo, PartitionStat,
  EngineInfo, SubscriberInfo, StreamsInfo, InspectWarning, InspectReport,
}
use fq_client_py.Inspect.Decode.{
  instance_info, persistence_info, wal_info, dump_info, slave_info, replica_info, repl_info,
  partition_stat, engine_info, subscriber_info, streams_info, inspect_warning, inspect_report,
  subscribers, section_of, items_of, dicts, dict_of,
}

module _ {fl : Floats} where
  abbrev pub listed : {A : Type 0} → (A → Fields fl) → List A → Items fl
  listed write [] = nil
  listed write (a ∷ as') = cons (object (write a)) (listed write as')

  abbrev pub or_null : {A : Type 0} → (A → Fields fl) → Option A → Json fl
  or_null write none = null
  or_null write (some a) = object (write a)

  abbrev pub instance_entries : InstanceInfo fl → Fields fl
  instance_entries r = entry (text "version") r.version (
      entry (text "commit") r.commit (
        entry (text "build_date") r.build_date (
          entry (text "go_version") r.go_version (
            entry (text "platform") r.platform (
              entry (text "uptime_sec") r.uptime_sec (
                entry (text "pid") r.pid (
                  entry (text "role") r.role (
                    entry (text "replica_id") r.replica_id (
                      entry (text "listen_addr") r.listen_addr
                        (entry (text "connections") r.connections end))))))))))

  abbrev pub persistence_entries : PersistenceInfo fl → Fields fl
  persistence_entries r = entry (text "mode") r.mode (entry (text "sync_commit") r.sync_commit end)

  abbrev pub wal_entries : WalInfo fl → Fields fl
  wal_entries r = entry (text "enabled") r.enabled (
      entry (text "sync_commit") r.sync_commit (
        entry (text "data_directory") r.data_directory (
          entry (text "queue_depth") r.queue_depth (
            entry (text "queue_capacity") r.queue_capacity (
              entry (text "lsn_assigned") r.lsn_assigned (
                entry (text "lsn_flushed") r.lsn_flushed (
                  entry (text "segment_path") r.segment_path (
                    entry (text "segment_size_bytes") r.segment_size_bytes (
                      entry (text "last_flush_at") r.last_flush_at (
                        entry (text "last_flush_duration_ms") r.last_flush_duration_ms (
                          entry (text "flush_avg_duration_ms") r.flush_avg_duration_ms
                            (entry (text "flush_total") r.flush_total end))))))))))))

  abbrev pub dump_entries : DumpInfo fl → Fields fl
  dump_entries r = entry (text "enabled") r.enabled (
      entry (text "directory") r.directory (
        entry (text "interval_sec") r.interval_sec (
          entry (text "last_dump_at") r.last_dump_at (
            entry (text "last_dump_duration_ms") r.last_dump_duration_ms (
              entry (text "last_dump_error") r.last_dump_error (
                entry (text "last_dump_tx") r.last_dump_tx (
                  entry (text "current_dump_path") r.current_dump_path (
                    entry (text "current_dump_size_bytes") r.current_dump_size_bytes
                      (entry (text "next_dump_at") r.next_dump_at end)))))))))

  abbrev pub slave_entries : SlaveInfo fl → Fields fl
  slave_entries r = entry (text "master_address") r.master_address (
      entry (text "connected") r.connected (
        entry (text "last_segment_name") r.last_segment_name (
          entry (text "last_applied_lsn") r.last_applied_lsn (
            entry (text "consecutive_errors") r.consecutive_errors (
              entry (text "reconnect_total") r.reconnect_total (
                entry (text "last_reconnect_at") r.last_reconnect_at
                  (entry (text "updated_at") r.updated_at end)))))))

  abbrev pub replica_entries : ReplicaInfo fl → Fields fl
  replica_entries r = entry (text "replica_id") r.replica_id (
      entry (text "last_segment_name") r.last_segment_name (
        entry (text "last_applied_lsn") r.last_applied_lsn (
          entry (text "lag_lsn") r.lag_lsn (
            entry (text "lag_sec") r.lag_sec
              (entry (text "stale") r.stale (entry (text "updated_at") r.updated_at end))))))

  abbrev pub repl_entries : ReplInfo fl → Fields fl
  repl_entries r = entry (text "role") r.role (
      entry (text "known_replicas") r.known_replicas (
        entry (text "replicas") (array (listed replica_entries r.replicas)) (
          entry (text "slave") (or_null slave_entries r.slave)
            (entry (text "truncated") r.truncated end))))

  abbrev pub partition_entries : PartitionStat fl → Fields fl
  partition_entries r = entry (text "index") r.index (
      entry (text "counters") r.counters (
        entry (text "sliding_windows") r.sliding_windows (
          entry (text "token_buckets") r.token_buckets (
            entry (text "quotas") r.quotas
              (entry (text "quota_allocations") r.quota_allocations end)))))

  abbrev pub engine_entries : EngineInfo fl → Fields fl
  engine_entries r = entry (text "partitions") r.partitions (
      entry (text "counters") r.counters (
        entry (text "sliding_windows") r.sliding_windows (
          entry (text "token_buckets") r.token_buckets (
            entry (text "quotas") r.quotas (
              entry (text "quota_allocations") r.quota_allocations (
                entry (text "key_index_enabled") r.key_index_enabled (
                  entry (text "per_partition") (array (listed partition_entries r.per_partition))
                    end)))))))

  abbrev pub subscriber_entries : SubscriberInfo fl → Fields fl
  subscriber_entries r = entry (text "prefix") r.prefix (
      entry (text "queue_len") r.queue_len
        (entry (text "queue_cap") r.queue_cap (entry (text "dropped") r.dropped end)))

  abbrev pub streams_entries : StreamsInfo fl → Fields fl
  streams_entries r =
      entry (text "limit_subscribers") (array (listed subscriber_entries r.limit_subscribers)) (
        entry (text "quota_subscribers") (array (listed subscriber_entries r.quota_subscribers)) (
          entry (text "limit_events_dropped_total") r.limit_events_dropped_total
            (entry (text "quota_events_dropped_total") r.quota_events_dropped_total end)))

  abbrev pub warning_entries : InspectWarning fl → Fields fl
  warning_entries r = entry (text "code") r.code (
      entry (text "severity") r.severity
        (entry (text "message") r.message (entry (text "details") r.details end)))

  abbrev pub report_entries : InspectReport fl → Fields fl
  report_entries r = entry (text "section") r.section (
      entry (text "ts") r.ts (
        entry (text "instance") (or_null instance_entries r.instance) (
          entry (text "persistence") (or_null persistence_entries r.persistence) (
            entry (text "wal") (or_null wal_entries r.wal) (
              entry (text "dump") (or_null dump_entries r.dump) (
                entry (text "repl") (or_null repl_entries r.repl) (
                  entry (text "engine") (or_null engine_entries r.engine) (
                    entry (text "streams") (or_null streams_entries r.streams) (
                      entry (text "warnings") (array (listed warning_entries r.warnings))
                        end)))))))))
