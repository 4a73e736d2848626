-- ===== src/Ops/Listing.antt =====
-- `getOperation` and `listOperations` of containers/api/src/services/sync-operations.service.js. A
-- page is counted from 1 and its limit is positive, as the routes give them.
use linbo_docker.Base.{
  ℕ, ◌+◌, ◌-◌, ◌*◌, ◌/◌, String, Bool, true, false, not, Option, none, some, List, [], ◌∷◌, map,
  ◌==◌, if◌then◌else◌, length, take, drop, keep,
}
use linbo_docker.Ops.Data.{OpStatus, OpHash, Session, exists}
use linbo_docker.Ops.Redis.{Redis}
use linbo_docker.Ops.Sessions.{listed}

abbrev pub or {ℓ} : {A : Type ℓ} → Option A → A → A
or none a = a
or (some b) a = b

abbrev pub is_true : Option Bool → Bool
is_true (some true) = true
is_true _ = false

-- the parsed fields, with what stands for a missing one
abbrev pub shown : OpHash → OpHash
shown h = record h {
  commands = some (or h.commands []);
  target_hosts = some (or h.target_hosts []);
  progress = some (or h.progress 0);
  cancel_requested = some (is_true h.cancel_requested);
}

abbrev status_code : OpStatus → ℕ
status_code OpStatus.pending = 0
status_code OpStatus.running = 1
status_code OpStatus.cancelling = 2
status_code OpStatus.completed = 3
status_code OpStatus.failed = 4
status_code OpStatus.cancelled = 5
status_code OpStatus.completed_with_errors = 6

abbrev pub has_status : OpStatus → Option OpStatus → Bool
has_status s none = false
has_status s (some t) = status_code s == status_code t

pub record Listing : Type 0 where
  pub data_of : List OpHash
  pub page : ℕ
  pub limit : ℕ
  pub total : ℕ
  pub pages : ℕ

module _ (R : Redis) where
  open R use {Db, op, index, zrem}

  unfoldable pub get_operation : String → Db → Option (OpHash × List (String × Session))
  unfolding exists
  get_operation id d = if exists (op d id) then some (shown (op d id), listed R d id) else none

  abbrev pub filtered_ids : Option OpStatus → Db → List String → List String
  filtered_ids none d ids = ids
  filtered_ids (some s) d ids = keep (λ i. has_status s (op d i).status) ids

  abbrev pub clean : List String → Db → Db
  clean [] d = d
  clean (i ∷ is) d = zrem d (i ∷ is)

  -- the operations of a page, those left out that have gone
  abbrev pub page_data : Db → List String → List OpHash
  page_data d ids = map shown (keep exists (map (op d) ids))

  abbrev pub listing : ℕ → ℕ → Db → List String → Listing
  listing page limit d ids = record {
    data_of = page_data d (take limit (drop ((page - 1) * limit) ids));
    page = page;
    limit = limit;
    total = length ids;
    pages = (length ids + limit - 1) / limit;
  }

  abbrev pub live_ids : Db → List String → List String
  live_ids d = keep (λ i. exists (op d i))

  abbrev pub dead_ids : Db → List String → List String
  dead_ids d = keep (λ i. not (exists (op d i)))

  abbrev pub list_ids : ℕ → ℕ → Option OpStatus → Db → List String → Listing × Db
  list_ids page limit status d [] =
      (record { data_of = []; page = page; limit = limit; total = 0; pages = 0 }, d)
  list_ids page limit status d (i ∷ is) =
      let d1 = clean (dead_ids d (i ∷ is)) d in
      (listing page limit d1 (filtered_ids status d1 (live_ids d (i ∷ is))), d1)

  unfoldable pub list_operations : ℕ → ℕ → Option OpStatus → Db → Listing × Db
  unfolding exists
  list_operations page limit status d = list_ids page limit status d (index d)
