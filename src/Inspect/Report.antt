-- ===== src/Inspect/Report.antt =====
-- The report types of fq/inspect_types.py. The annotations of the source are not checked when a
-- report is decoded, so a field that is read from the JSON holds any JSON value.
use fq_client_py.Prelude.{List, Option}
use fq_client_py.Floats.{Floats}
use fq_client_py.Inspect.Json.{Json}

module _ (fl : Floats) where
  pub record InstanceInfo : Type 0 where
    pub version : Json fl
    pub commit : Json fl
    pub build_date : Json fl
    pub go_version : Json fl
    pub platform : Json fl
    pub uptime_sec : Json fl
    pub pid : Json fl
    pub role : Json fl
    pub replica_id : Json fl
    pub listen_addr : Json fl
    pub connections : Json fl

  pub record PersistenceInfo : Type 0 where
    pub mode : Json fl
    pub sync_commit : Json fl

  pub record WalInfo : Type 0 where
    pub enabled : Json fl
    pub sync_commit : Json fl
    pub data_directory : Json fl
    pub queue_depth : Json fl
    pub queue_capacity : Json fl
    pub lsn_assigned : Json fl
    pub lsn_flushed : Json fl
    pub segment_path : Json fl
    pub segment_size_bytes : Json fl
    pub last_flush_at : Json fl
    pub last_flush_duration_ms : Json fl
    pub flush_avg_duration_ms : Json fl
    pub flush_total : Json fl

  pub record DumpInfo : Type 0 where
    pub enabled : Json fl
    pub directory : Json fl
    pub interval_sec : Json fl
    pub last_dump_at : Json fl
    pub last_dump_duration_ms : Json fl
    pub last_dump_error : Json fl
    pub last_dump_tx : Json fl
    pub current_dump_path : Json fl
    pub current_dump_size_bytes : Json fl
    pub next_dump_at : Json fl

  pub record ReplicaInfo : Type 0 where
    pub replica_id : Json fl
    pub last_segment_name : Json fl
    pub last_applied_lsn : Json fl
    pub lag_lsn : Json fl
    pub lag_sec : Json fl
    pub stale : Json fl
    pub updated_at : Json fl

  pub record SlaveInfo : Type 0 where
    pub master_address : Json fl
    pub connected : Json fl
    pub last_segment_name : Json fl
    pub last_applied_lsn : Json fl
    pub consecutive_errors : Json fl
    pub reconnect_total : Json fl
    pub last_reconnect_at : Json fl
    pub updated_at : Json fl

  pub record ReplInfo : Type 0 where
    pub role : Json fl
    pub known_replicas : Json fl
    pub replicas : List ReplicaInfo
    pub slave : Option SlaveInfo
    pub truncated : Json fl

  pub record PartitionStat : Type 0 where
    pub index : Json fl
    pub counters : Json fl
    pub sliding_windows : Json fl
    pub token_buckets : Json fl
    pub quotas : Json fl
    pub quota_allocations : Json fl

  pub record EngineInfo : Type 0 where
    pub partitions : Json fl
    pub counters : Json fl
    pub sliding_windows : Json fl
    pub token_buckets : Json fl
    pub quotas : Json fl
    pub quota_allocations : Json fl
    pub key_index_enabled : Json fl
    pub per_partition : List PartitionStat

  pub record SubscriberInfo : Type 0 where
    pub prefix : Json fl
    pub queue_len : Json fl
    pub queue_cap : Json fl
    pub dropped : Json fl

  pub record StreamsInfo : Type 0 where
    pub limit_subscribers : List SubscriberInfo
    pub quota_subscribers : List SubscriberInfo
    pub limit_events_dropped_total : Json fl
    pub quota_events_dropped_total : Json fl

  pub record InspectWarning : Type 0 where
    pub code : Json fl
    pub severity : Json fl
    pub message : Json fl
    pub details : Json fl

  pub record InspectReport : Type 0 where
    pub section : Json fl
    pub ts : Json fl
    pub instance : Option InstanceInfo
    pub persistence : Option PersistenceInfo
    pub wal : Option WalInfo
    pub dump : Option DumpInfo
    pub repl : Option ReplInfo
    pub engine : Option EngineInfo
    pub streams : Option StreamsInfo
    pub warnings : List InspectWarning
