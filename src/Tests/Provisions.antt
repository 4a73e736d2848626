-- ===== src/Tests/Provisions.antt =====
-- Runs of Provision over tables in memory, and its theorems at concrete inputs.
use linbo_docker.Base.{String, ◌≡◌, refl, Bool, true, false, Option, none, some, [], ◌∷◌}
use linbo_docker.Macct.{JobStatus}
use linbo_docker.Tables.{amend, find_many, read_all}
use linbo_docker.Tables.Laws.{holds}
use linbo_docker.Tests.Tables.{memory, find_in, put_in}
use linbo_docker.Provision.{
  HostData, ExtraOptions, Operation, ProvisionStatus, Host, Report, State, Creation, already_queued,
  dedup_where, new_operation, create_provision_job,
}
use linbo_docker.Provision.Once.{create_provision_job-once}
use linbo_docker.Provision.Reports.{is_synced, reports, reports-is_synced}

abbrev Store : Type 0
Store = State (memory Operation) (memory Host)

abbrev pc01 : String → HostData
pc01 ip = record {
  hostname = "pc01";
  mac_address = "aa:bb:cc:dd:ee:ff";
  ip_address = ip;
  csv_col0 = "r1";
  config_name = "win";
  host_id = some "h1";
}

abbrev nothing_more : ExtraOptions
nothing_more = record { old_hostname = none; triggered_by = none; requested_by = none }

abbrev empty_store : Store
empty_store = record {
  operations = [];
  hosts = ("h1", record { provision_status = none; provision_op_id = none }) ∷ [];
  jobs = [];
  dead_letters = [];
}

abbrev create : String → String → Store → Creation × Store
create id ip s =
    create_provision_job (memory Operation) (memory Host) 5 id true (pc01 ip) "update" nothing_more
      s

abbrev one_job : Store
one_job = (create "op-1" "10.0.0.1" empty_store).1

-- The host has a new address, but the job that waits keeps the old one.
second_is_dropped : create "op-2" "10.0.0.2" one_job ≡ (
  already_queued "op-1" (new_operation 5 (pc01 "10.0.0.1") "update" nothing_more true),
  one_job,
)
unfolding create_provision_job dedup_where find_many read_all put_in find_in
second_is_dropped = refl

create_provision_job-once_example :
    (k : String) × (o : Operation) × (find_in one_job.operations k ≡ some o)
    × (dedup_where "update" (pc01 "10.0.0.2") o ≡ true)
    × (create "op-2" "10.0.0.2" one_job ≡ (already_queued k o, one_job))
create_provision_job-once_example =
    create_provision_job-once (memory Operation) (memory Host) 5 5 "op-1" "op-2" true true
      (pc01 "10.0.0.1") (pc01 "10.0.0.2") "update" nothing_more nothing_more empty_store refl refl

abbrev completed : Bool → Report
completed dry = record {
  new_status = some JobStatus.completed;
  new_result = some (some (record { was_dry_run = dry; details = "" }));
  new_error = none;
  new_attempt = none;
}

abbrev synced_by : Bool → Option Host
synced_by dry =
    find_in
      (reports (memory Operation) (memory Host) ((9, "op-1", completed dry) ∷ []) one_job).hosts
      "h1"

synced_really :
    synced_by false
    ≡ some
        (record { provision_status = some ProvisionStatus.synced; provision_op_id = some "op-1" })
unfolding reports create_provision_job dedup_where find_many read_all put_in find_in amend
synced_really = refl

not_synced_before : holds is_synced (find_in one_job.hosts "h1") ≡ false
unfolding create_provision_job dedup_where find_many read_all put_in find_in
not_synced_before = refl

reports-is_synced_example : holds is_synced (synced_by true) ≡ false
reports-is_synced_example =
    reports-is_synced (memory Operation) (memory Host) ((9, "op-1", completed true) ∷ []) one_job
      "h1" ((λ e. refl), tt) not_synced_before
