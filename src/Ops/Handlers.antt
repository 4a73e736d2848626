-- ===== src/Ops/Handlers.antt =====
-- The handlers of `executeDirectCommands` in containers/api/src/services/sync-operations.service.js
-- as they run in turns: a step is one command to Redis, or one call of the SSH service, with the
-- code behind it up to the next `await`. A schedule says which handler takes the next step, and at
-- what time; it may start more handlers at once than the pool does.
use linbo_docker.Base.{
  ℕ, zero, suc, String, Bool, true, false, Option, none, some, List, [], ◌∷◌, map, if◌then◌else◌,
  length, all,
}
use linbo_docker.Ops.Data.{SessionStatus, SessionError, no_ip_address, Session, Stats, Host}
use linbo_docker.Ops.Redis.{Redis}
use linbo_docker.Ops.Sessions.{
  no_stats, updated, is_queued, cancelled_session, get_session, create_operation,
}
use linbo_docker.Ops.Execute.{
  Ssh, ssh_status, ssh_error, count_status, is_set, Run, report, mark_running,
}

-- what a call of `updateSession` is for
pub data Update : Type 0 where
  no_address : Update
  mark : String → Update
  outcome : Ssh → Update

abbrev pub update_status : Update → SessionStatus
update_status no_address = SessionStatus.failed
update_status (mark ip) = SessionStatus.running
update_status (outcome answer) = ssh_status answer

abbrev pub update_error : Update → Option SessionError
update_error no_address = some no_ip_address
update_error (mark ip) = none
update_error (outcome answer) = ssh_error answer

-- the `await` at which a handler stands, with what its local variables hold
pub data Phase : Type 0 where
  waiting checking ended : Phase
  cancels : Session → Phase
  reads : Update → Phase
  writes : Update → Session → Phase
  contacts : String → Phase
  reports : Stats → Phase

abbrev pub is_ended : Phase → Bool
is_ended ended = true
is_ended _ = false

-- behind the test for a cancellation
abbrev pub enter : Option String → Phase
enter none = reads no_address
enter (some ip) = reads (mark ip)

-- behind the second `await` of `updateSession`
abbrev pub after_write : Update → Stats → Phase × Stats
after_write no_address t = (ended, count_status SessionStatus.failed t)
after_write (mark ip) t = (contacts ip, t)
after_write (outcome answer) t = let u = count_status (ssh_status answer) t in (reports u, u)

module _ (R : Redis) (percent : ℕ → ℕ → ℕ) (ssh : String → Ssh) where
  open R use {Db, op, hset}

  unfoldable pub advance : ℕ → String → Host → Phase → Run R percent ssh → Phase × Run R percent ssh
  unfolding updated ssh_status ssh_error
  advance now id h waiting r =
      (if is_set (op r.db id).cancel_requested then checking else enter h.ip, r)
  advance now id h checking r =
      let s = get_session R r.db id h.hostname in
      (if is_queued s.status then cancels s else enter h.ip, r)
  advance now id h (cancels s) r = (
    ended,
    record {
      db = hset r.db id h.hostname (cancelled_session now s);
      stats = count_status SessionStatus.cancelled r.stats;
    },
  )
  advance now id h (reads u) r = (writes u (get_session R r.db id h.hostname), r)
  advance now id h (writes u s) r = (
    (after_write u r.stats).0,
    record {
      db = hset r.db id h.hostname (updated now s (update_status u) (update_error u));
      stats = (after_write u r.stats).1;
    },
  )
  advance now id h (contacts ip) r = (reads (outcome (ssh ip)), r)
  advance now id h (reports t) r =
      (ended, record { db = report R percent ssh id t r.db; stats = r.stats })
  advance now id h ended r = (ended, r)

  -- the handlers, each with its host, and what they share
  pub record Turns : Type 0 where
    pub handlers : List (Host × Phase)
    pub run : Run R percent ssh

  -- The handler at this place takes a step.
  unfoldable pub turn : ℕ → String → ℕ → List (Host × Phase) → Run R percent ssh → Turns
  unfolding advance
  turn now id i [] r = record { handlers = []; run = r }
  turn now id zero ((h, p) ∷ hs) r =
      let step = advance now id h p r in record { handlers = (h, step.0) ∷ hs; run = step.1 }
  turn now id (suc i) (x ∷ hs) r =
      let rest = turn now id i hs r in record { handlers = x ∷ rest.handlers; run = rest.run }

  -- a schedule: times and places
  unfoldable pub turns : String → List (ℕ × ℕ) → Turns → Turns
  unfolding turn
  turns id [] s = s
  turns id ((now, i) ∷ schedule) s = turns id schedule (turn now id i s.handlers s.run)

  -- `executeDirectCommands` behind its writes before the pool
  unfoldable pub started : ℕ → String → List Host → String → Db → Turns
  unfolding create_operation
  started now id hosts commands d = record {
    handlers = map (λ h. (h, waiting)) hosts;
    run = record {
      db =
          mark_running R percent ssh now id
            (create_operation R now id hosts (commands ∷ []) "direct" d);
      stats = no_stats (length hosts);
    };
  }

  abbrev pub all_ended : List (Host × Phase) → Bool
  all_ended hs = all (λ x. is_ended x.1) hs
