-- ===== src/Inspect/Render/Back.antt =====
-- The report that fq/inspect_types.py reads from its own JSON object.
use fq_client_py.Prelude.{
  ◌≡◌, refl, ap, ap₂, subst, sym, List, [], ◌∷◌, map, Option, none, some, str_eq, All, All-all,
  All-map,
}
use mathlib.Core.Option
use fq_client_py.Floats.{Floats}
use fq_client_py.Inspect.Json.{object, Fields, end, entry, lookup, or_else}
use fq_client_py.Inspect.Report.{
  InstanceInfo, PersistenceInfo, WalInfo, DumpInfo, SlaveInfo, ReplicaInfo, ReplInfo, PartitionStat,
  EngineInfo, SubscriberInfo, StreamsInfo, InspectWarning, InspectReport,
}
use fq_client_py.Inspect.Decode.{
  instance_info, persistence_info, wal_info, dump_info, slave_info, replica_info, repl_info,
  partition_stat, engine_info, subscriber_info, streams_info, inspect_warning, inspect_report,
  subscribers, section_of, items_of, dicts, dict_of,
}
use fq_client_py.Inspect.Render.{
  listed, or_null, instance_entries, persistence_entries, wal_entries, dump_entries, slave_entries,
  replica_entries, repl_entries, partition_entries, engine_entries, subscriber_entries,
  streams_entries, warning_entries, report_entries,
}

module _ {fl : Floats} where
  dicts-listed :
      {A : Type 0} (read : Fields fl → A) (write : A → Fields fl) (as' : List A)
      → All (λ a. read (write a) ≡ a) as'
      → map read (dicts (listed write as')) ≡ as'
  unfolding dicts
  dicts-listed read write [] h = refl
  dicts-listed read write (a ∷ as') h = rw (h.0, dicts-listed read write as' h.1)

  dict_of-or_null :
      {A : Type 0} (read : Fields fl → A) (write : A → Fields fl)
      → ((a : A) → read (write a) ≡ a)
      → (o : Option A) → Option.map read (dict_of (or_null write o)) ≡ o
  dict_of-or_null read write h none = refl
  dict_of-or_null read write h (some a) = ap some (h a)

  instance_info-instance_entries : (r : InstanceInfo fl) → instance_info (instance_entries r) ≡ r
  unfolding instance_info lookup str_eq
  instance_info-instance_entries r = refl

  persistence_info-persistence_entries :
      (r : PersistenceInfo fl) → persistence_info (persistence_entries r) ≡ r
  unfolding persistence_info lookup str_eq
  persistence_info-persistence_entries r = refl

  wal_info-wal_entries : (r : WalInfo fl) → wal_info (wal_entries r) ≡ r
  unfolding wal_info lookup str_eq
  wal_info-wal_entries r = refl

  dump_info-dump_entries : (r : DumpInfo fl) → dump_info (dump_entries r) ≡ r
  unfolding dump_info lookup str_eq
  dump_info-dump_entries r = refl

  slave_info-slave_entries : (r : SlaveInfo fl) → slave_info (slave_entries r) ≡ r
  unfolding slave_info lookup str_eq
  slave_info-slave_entries r = refl

  replica_info-replica_entries : (r : ReplicaInfo fl) → replica_info (replica_entries r) ≡ r
  unfolding replica_info lookup str_eq
  replica_info-replica_entries r = refl

  partition_stat-partition_entries :
      (r : PartitionStat fl) → partition_stat (partition_entries r) ≡ r
  unfolding partition_stat lookup str_eq
  partition_stat-partition_entries r = refl

  subscriber_info-subscriber_entries :
      (r : SubscriberInfo fl) → subscriber_info (subscriber_entries r) ≡ r
  unfolding subscriber_info lookup str_eq
  subscriber_info-subscriber_entries r = refl

  repl_info-repl_entries : (r : ReplInfo fl) → repl_info (repl_entries r) ≡ r
  unfolding repl_info section_of items_of lookup str_eq
  repl_info-repl_entries r =
      ap₂ (λ xs o. record r { replicas = xs; slave = o })
        (dicts-listed replica_info replica_entries r.replicas
          (All-all _ replica_info-replica_entries r.replicas))
        (dict_of-or_null slave_info slave_entries slave_info-slave_entries r.slave)

  engine_info-engine_entries : (r : EngineInfo fl) → engine_info (engine_entries r) ≡ r
  unfolding engine_info items_of lookup str_eq
  engine_info-engine_entries r =
      ap (λ xs. record r { per_partition = xs })
        (dicts-listed partition_stat partition_entries r.per_partition
          (All-all _ partition_stat-partition_entries r.per_partition))

  streams_info-streams_entries : (r : StreamsInfo fl) → streams_info (streams_entries r) ≡ r
  unfolding streams_info subscribers items_of lookup str_eq
  streams_info-streams_entries r =
      let back = λ (xs : List (SubscriberInfo fl)).
        dicts-listed subscriber_info subscriber_entries xs
          (All-all _ subscriber_info-subscriber_entries xs) in
      ap₂ (λ xs ys. record r { limit_subscribers = xs; quota_subscribers = ys })
        (back r.limit_subscribers) (back r.quota_subscribers)

  -- The details of a warning are a dict.
  abbrev pub IsDetailed : InspectWarning fl → Type 0
  IsDetailed w = (d : Fields fl) × (w.details ≡ object d)

  or_else-object : (d : Fields fl) → or_else (object d) (object end) ≡ object d
  unfolding or_else
  or_else-object end = refl
  or_else-object (entry k v rest) = refl

  inspect_warning-warning_entries :
      (w : InspectWarning fl) → IsDetailed w → inspect_warning (warning_entries w) ≡ w
  unfolding inspect_warning lookup str_eq
  inspect_warning-warning_entries w (d, e) =
      ap (λ x. record w { details = x })
        (subst (λ x. or_else x (object end) ≡ x) (sym e) (or_else-object d))

  pub inspect_report-report_entries :
      (r : InspectReport fl) → All IsDetailed r.warnings → inspect_report (report_entries r) ≡ r
  unfolding inspect_report section_of items_of lookup str_eq
  inspect_report-report_entries r h = rw (
    dict_of-or_null instance_info instance_entries instance_info-instance_entries r.instance,
    dict_of-or_null persistence_info persistence_entries persistence_info-persistence_entries
        r.persistence,
    dict_of-or_null wal_info wal_entries wal_info-wal_entries r.wal,
    dict_of-or_null dump_info dump_entries dump_info-dump_entries r.dump,
    dict_of-or_null repl_info repl_entries repl_info-repl_entries r.repl,
    dict_of-or_null engine_info engine_entries engine_info-engine_entries r.engine,
    dict_of-or_null streams_info streams_entries streams_info-streams_entries r.streams,
    dicts-listed inspect_warning warning_entries r.warnings
        (All-map _ _ inspect_warning-warning_entries r.warnings h),
  )
