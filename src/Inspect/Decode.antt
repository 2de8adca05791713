-- ===== src/Inspect/Decode.antt =====
-- The functions of fq/inspect_types.py that make the report out of the JSON object. `X_info` is the
-- function `_X`, or the call of the class where it stands inside another function.
use fq_client_py.Prelude.{
  pos, false, List, [], ◌∷◌, map, Option, none, some, Str, Bytes, text, if◌then◌else◌,
}
use fq_client_py.Errors.{Result, ok, raise, is_value_error, corrupted_response_error, ◌>>=◌}
use fq_client_py.Responses.{ok_data}
use mathlib.Core.Option
use fq_client_py.Floats.{Floats}
use fq_client_py.Inspect.Json.{
  Json, boolean, integer, floating, string, array, object, Items, nil, cons, Fields, end, get,
  get_or, or_else,
}
use fq_client_py.Inspect.Report.{
  InstanceInfo, PersistenceInfo, WalInfo, DumpInfo, ReplicaInfo, SlaveInfo, ReplInfo, PartitionStat,
  EngineInfo, SubscriberInfo, StreamsInfo, InspectWarning, InspectReport,
}

module _ {fl : Floats} where
  open fl use {zero_float}

  -- `value if isinstance(value, dict) else None`
  abbrev pub dict_of : Json fl → Option (Fields fl)
  dict_of (object fields) = some fields
  dict_of _ = none

  -- `_section`
  unfoldable pub section_of : Fields fl → Str → Option (Fields fl)
  section_of raw key = dict_of (get raw key)

  -- The comprehension over the list, which keeps the dicts.
  unfoldable pub dicts : Items fl → List (Fields fl)
  dicts nil = []
  dicts (cons x xs) = elim x [ object fields ↦ fields ∷ dicts xs | _ ↦ dicts xs ]

  abbrev pub dicts_of : Json fl → List (Fields fl)
  dicts_of (array xs) = dicts xs
  dicts_of _ = []

  -- `_items`
  unfoldable pub items_of : Fields fl → Str → List (Fields fl)
  items_of raw key = dicts_of (get raw key)

  unfoldable pub instance_info : Fields fl → InstanceInfo fl
  instance_info raw = record {
    version = get_or raw (text "version") (string []);
    commit = get_or raw (text "commit") (string []);
    build_date = get_or raw (text "build_date") (string []);
    go_version = get_or raw (text "go_version") (string []);
    platform = get_or raw (text "platform") (string []);
    uptime_sec = get_or raw (text "uptime_sec") (floating zero_float);
    pid = get_or raw (text "pid") (integer (pos 0));
    role = get_or raw (text "role") (string []);
    replica_id = get raw (text "replica_id");
    listen_addr = get_or raw (text "listen_addr") (string []);
    connections = get_or raw (text "connections") (integer (pos 0));
  }

  unfoldable pub persistence_info : Fields fl → PersistenceInfo fl
  persistence_info persistence = record {
    mode = get_or persistence (text "mode") (string []);
    sync_commit = get persistence (text "sync_commit");
  }

  unfoldable pub wal_info : Fields fl → WalInfo fl
  wal_info raw = record {
    enabled = get_or raw (text "enabled") (boolean false);
    sync_commit = get raw (text "sync_commit");
    data_directory = get raw (text "data_directory");
    queue_depth = get raw (text "queue_depth");
    queue_capacity = get raw (text "queue_capacity");
    lsn_assigned = get_or raw (text "lsn_assigned") (integer (pos 0));
    lsn_flushed = get raw (text "lsn_flushed");
    segment_path = get raw (text "segment_path");
    segment_size_bytes = get raw (text "segment_size_bytes");
    last_flush_at = get raw (text "last_flush_at");
    last_flush_duration_ms = get raw (text "last_flush_duration_ms");
    flush_avg_duration_ms = get raw (text "flush_avg_duration_ms");
    flush_total = get raw (text "flush_total");
  }

  unfoldable pub dump_info : Fields fl → DumpInfo fl
  dump_info raw = record {
    enabled = get_or raw (text "enabled") (boolean false);
    directory = get raw (text "directory");
    interval_sec = get raw (text "interval_sec");
    last_dump_at = get raw (text "last_dump_at");
    last_dump_duration_ms = get raw (text "last_dump_duration_ms");
    last_dump_error = get raw (text "last_dump_error");
    last_dump_tx = get raw (text "last_dump_tx");
    current_dump_path = get raw (text "current_dump_path");
    current_dump_size_bytes = get raw (text "current_dump_size_bytes");
    next_dump_at = get raw (text "next_dump_at");
  }

  unfoldable pub slave_info : Fields fl → SlaveInfo fl
  slave_info raw = record {
    master_address = get_or raw (text "master_address") (string []);
    connected = get_or raw (text "connected") (boolean false);
    last_segment_name = get_or raw (text "last_segment_name") (string []);
    last_applied_lsn = get_or raw (text "last_applied_lsn") (integer (pos 0));
    consecutive_errors = get_or raw (text "consecutive_errors") (integer (pos 0));
    reconnect_total = get_or raw (text "reconnect_total") (integer (pos 0));
    last_reconnect_at = get raw (text "last_reconnect_at");
    updated_at = get_or raw (text "updated_at") (integer (pos 0));
  }

  unfoldable pub replica_info : Fields fl → ReplicaInfo fl
  replica_info item = record {
    replica_id = get_or item (text "replica_id") (string []);
    last_segment_name = get_or item (text "last_segment_name") (string []);
    last_applied_lsn = get_or item (text "last_applied_lsn") (integer (pos 0));
    lag_lsn = get_or item (text "lag_lsn") (integer (pos 0));
    lag_sec = get_or item (text "lag_sec") (floating zero_float);
    stale = get_or item (text "stale") (boolean false);
    updated_at = get_or item (text "updated_at") (integer (pos 0));
  }

  unfoldable pub repl_info : Fields fl → ReplInfo fl
  unfolding replica_info slave_info items_of section_of
  repl_info raw = record {
    role = get_or raw (text "role") (string []);
    known_replicas = get_or raw (text "known_replicas") (integer (pos 0));
    replicas = map replica_info (items_of raw (text "replicas"));
    slave = Option.map slave_info (section_of raw (text "slave"));
    truncated = get_or raw (text "truncated") (boolean false);
  }

  unfoldable pub partition_stat : Fields fl → PartitionStat fl
  partition_stat item = record {
    index = get_or item (text "index") (integer (pos 0));
    counters = get_or item (text "counters") (integer (pos 0));
    sliding_windows = get_or item (text "sliding_windows") (integer (pos 0));
    token_buckets = get_or item (text "token_buckets") (integer (pos 0));
    quotas = get_or item (text "quotas") (integer (pos 0));
    quota_allocations = get_or item (text "quota_allocations") (integer (pos 0));
  }

  unfoldable pub engine_info : Fields fl → EngineInfo fl
  unfolding partition_stat items_of
  engine_info raw = record {
    partitions = get_or raw (text "partitions") (integer (pos 0));
    counters = get_or raw (text "counters") (integer (pos 0));
    sliding_windows = get_or raw (text "sliding_windows") (integer (pos 0));
    token_buckets = get_or raw (text "token_buckets") (integer (pos 0));
    quotas = get_or raw (text "quotas") (integer (pos 0));
    quota_allocations = get_or raw (text "quota_allocations") (integer (pos 0));
    key_index_enabled = get_or raw (text "key_index_enabled") (boolean false);
    per_partition = map partition_stat (items_of raw (text "per_partition"));
  }

  unfoldable pub subscriber_info : Fields fl → SubscriberInfo fl
  subscriber_info item = record {
    prefix = get item (text "prefix");
    queue_len = get_or item (text "queue_len") (integer (pos 0));
    queue_cap = get_or item (text "queue_cap") (integer (pos 0));
    dropped = get_or item (text "dropped") (integer (pos 0));
  }

  unfoldable pub subscribers : Fields fl → Str → List (SubscriberInfo fl)
  subscribers raw key = map subscriber_info (items_of raw key)

  unfoldable pub streams_info : Fields fl → StreamsInfo fl
  unfolding subscribers
  streams_info raw = record {
    limit_subscribers = subscribers raw (text "limit_subscribers");
    quota_subscribers = subscribers raw (text "quota_subscribers");
    limit_events_dropped_total = get_or raw (text "limit_events_dropped_total") (integer (pos 0));
    quota_events_dropped_total = get_or raw (text "quota_events_dropped_total") (integer (pos 0));
  }

  unfoldable pub inspect_warning : Fields fl → InspectWarning fl
  inspect_warning item = record {
    code = get_or item (text "code") (string []);
    severity = get_or item (text "severity") (string []);
    message = get_or item (text "message") (string []);
    details = or_else (get item (text "details")) (object end);
  }

  unfoldable pub inspect_report : Fields fl → InspectReport fl
  inspect_report raw = record {
    section = get_or raw (text "section") (string []);
    ts = get_or raw (text "ts") (integer (pos 0));
    instance = Option.map instance_info (section_of raw (text "instance"));
    persistence = Option.map persistence_info (section_of raw (text "persistence"));
    wal = Option.map wal_info (section_of raw (text "wal"));
    dump = Option.map dump_info (section_of raw (text "dump"));
    repl = Option.map repl_info (section_of raw (text "repl"));
    engine = Option.map engine_info (section_of raw (text "engine"));
    streams = Option.map streams_info (section_of raw (text "streams"));
    warnings = map inspect_warning (items_of raw (text "warnings"));
  }

  -- `except ValueError`
  abbrev pub loaded : Result (Json fl) → Result (Json fl)
  loaded (ok v) = ok v
  loaded (raise x) = raise (if is_value_error x then corrupted_response_error else x)

  abbrev pub report_of : Json fl → Result (InspectReport fl)
  report_of (object raw) = ok (inspect_report raw)
  report_of _ = raise corrupted_response_error

  -- `loads` is `json.loads`.
  unfoldable pub parse_inspect : (Bytes → Result (Json fl)) → Bytes → Result (InspectReport fl)
  parse_inspect loads payload = do
    data_field ← ok_data payload
    raw ← loaded (loads data_field)
    report_of raw
