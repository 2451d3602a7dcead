-- ===== src/Watcher/Jobs.antt =====
-- watcher.rs, and the records of resources.rs that it fills: jobs, cron jobs, stateful sets, nodes
-- and claims.
use cubelite.Prelude.{
  Bool, false, not, Option, none, some, List, [], if◌then◌else◌, find, filter, filter_map, length,
  is_empty, unwrap_or, and_then, map_option,
}
use cubelite.Prelude.BTree
use cubelite.Prelude.Int.{ℤ, pos, as_i32}
use cubelite.Prelude.Order.{text_cmp}
use cubelite.Prelude.Texts.{Text, codes, text_eq, strip_prefix}
use cubelite.K8s.{Labels, Condition}
use cubelite.K8s.Workloads.{
  JobStatus, Job, CronJobSpec, CronJobStatus, CronJob, StatefulSet, Node, PvcStatus,
  PersistentVolumeClaim,
}
use cubelite.Watcher.Workloads.{namespace_of}

pub record JobInfo : Type 0 where
  pub name : Text
  pub namespace : Text
  pub completions : ℤ
  pub succeeded : ℤ
  pub active : ℤ
  pub failed : ℤ
  pub creation_timestamp : Option Text

abbrev pub job_status : Option JobStatus → ℤ × ℤ × ℤ
job_status none = (pos 0, pos 0, pos 0)
job_status (some st) =
    (unwrap_or st.succeeded (pos 0), unwrap_or st.active (pos 0), unwrap_or st.failed (pos 0))

unfoldable pub job_to_info : Job → Option JobInfo
job_to_info j =
    map_option
      (λ name.
        let (succeeded, active, failed) = job_status j.status in
        record {
          name = name;
          namespace = namespace_of j.metadata;
          completions = unwrap_or (and_then j.completions (λ c. c)) (pos 1);
          succeeded = succeeded;
          active = active;
          failed = failed;
          creation_timestamp = j.metadata.creation_timestamp;
        })
      j.metadata.name

pub record CronJobInfo : Type 0 where
  pub name : Text
  pub namespace : Text
  pub schedule : Text
  pub suspend : Bool
  pub active : ℤ
  pub last_schedule : Option Text
  pub creation_timestamp : Option Text

abbrev pub cronjob_spec : Option CronJobSpec → Text × Bool
cronjob_spec none = ([], false)
cronjob_spec (some s) = (s.schedule, unwrap_or s.suspend false)

abbrev pub cronjob_status : Option CronJobStatus → ℤ × Option Text
cronjob_status none = (pos 0, none)
cronjob_status (some st) = (
  unwrap_or (map_option (λ (a : List Text). as_i32 (length a)) st.active) (pos 0),
  st.last_schedule_time,
)

unfoldable pub cronjob_to_info : CronJob → Option CronJobInfo
unfolding as_i32
cronjob_to_info cj =
    map_option
      (λ name.
        let (schedule, suspend) = cronjob_spec cj.spec in
        let (active, last_schedule) = cronjob_status cj.status in
        record {
          name = name;
          namespace = namespace_of cj.metadata;
          schedule = schedule;
          suspend = suspend;
          active = active;
          last_schedule = last_schedule;
          creation_timestamp = cj.metadata.creation_timestamp;
        })
      cj.metadata.name

pub record StatefulSetInfo : Type 0 where
  pub name : Text
  pub namespace : Text
  pub replicas : ℤ
  pub ready_replicas : ℤ
  pub creation_timestamp : Option Text

unfoldable pub statefulset_to_info : StatefulSet → Option StatefulSetInfo
statefulset_to_info ss =
    map_option
      (λ name. record {
        name = name;
        namespace = namespace_of ss.metadata;
        replicas = unwrap_or (and_then ss.replicas (λ r. r)) (pos 0);
        ready_replicas = unwrap_or (and_then ss.ready_replicas (λ r. r)) (pos 0);
        creation_timestamp = ss.metadata.creation_timestamp;
      })
      ss.metadata.name

pub record NodeInfo : Type 0 where
  pub name : Text
  pub status : Text
  pub roles : List Text
  pub version : Option Text
  pub creation_timestamp : Option Text

abbrev pub role_prefix : Text
role_prefix = codes "node-role.kubernetes.io/"

unfoldable pub node_to_info : Node → Option NodeInfo
unfolding strip_prefix text_eq
node_to_info n =
    map_option
      (λ name.
        let ready : Bool =
          unwrap_or
            (map_option (λ (c : Condition). text_eq c.status (codes "True"))
              (and_then (and_then n.status (λ s. s.conditions))
                (find (λ (c : Condition). text_eq c.condition_type (codes "Ready")))))
            false in
        record {
          name = name;
          status = if ready then codes "Ready" else codes "NotReady";
          roles =
              unwrap_or
                (map_option
                  (λ (labels : Labels).
                    filter (λ r. not (is_empty r))
                      (filter_map (λ (l : Text × Text). strip_prefix l.0 role_prefix) labels))
                  n.metadata.labels)
                [];
          version = and_then n.status (λ s. s.node_info);
          creation_timestamp = n.metadata.creation_timestamp;
        })
      n.metadata.name

pub record PvcInfo : Type 0 where
  pub name : Text
  pub namespace : Text
  pub status : Option Text
  pub volume : Option Text
  pub capacity : Option Text
  pub access_modes : List Text
  pub storage_class : Option Text
  pub creation_timestamp : Option Text

abbrev pub pvc_status : Option PvcStatus → Option Text × Option Text × List Text
pvc_status none = (none, none, [])
pvc_status (some st) = (
  st.phase,
  and_then st.capacity (λ c. BTree.get text_cmp c (codes "storage")),
  unwrap_or st.access_modes [],
)

unfoldable pub pvc_to_info : PersistentVolumeClaim → Option PvcInfo
unfolding BTree.get
pvc_to_info pvc =
    map_option
      (λ name.
        let (status, capacity, access_modes) = pvc_status pvc.status in
        record {
          name = name;
          namespace = namespace_of pvc.metadata;
          status = status;
          volume = and_then pvc.spec (λ s. s.volume_name);
          capacity = capacity;
          access_modes = access_modes;
          storage_class = and_then pvc.spec (λ s. s.storage_class_name);
          creation_timestamp = pvc.metadata.creation_timestamp;
        })
      pvc.metadata.name
