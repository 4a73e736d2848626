-- ===== src/Ops/HandlerSteps.antt =====
-- One step of one handler of `executeDirectCommands`, when no cancellation is requested.
use text.Mathlib.Text.{◌==◌ as str_eq}
use text.Mathlib.TextPositions.{eq_refl}
use linbo_docker.Base.{
  ℕ, String, ◌≡◌, refl, ap, ◌∙◌, Bool, true, false, Option, none, some, if◌then◌else◌,
}
use linbo_docker.Ops.Data.{SessionStatus, Session, OpHash, Stats, Host}
use linbo_docker.Ops.Redis.{Redis}
use linbo_docker.Ops.Execute.{Ssh, ssh_status, count_status, Run}
use linbo_docker.Ops.Results.{
  status_of, status_of-hmset, status_of-hset, op-hmset_own, host_result, Going, Kept,
}
use linbo_docker.Ops.Handlers.{
  Update, no_address, mark, outcome, Phase, waiting, checking, ended, cancels, reads, writes,
  contacts, reports, enter, advance,
}

-- the handler's outcome is in the statistics
abbrev pub is_settled : Phase → Bool
is_settled (reports t) = true
is_settled ended = true
is_settled _ = false

abbrev pub count_if : Bool → SessionStatus → Stats → Stats
count_if b st t = if b then count_status st t else t

module _ (R : Redis) (percent : ℕ → ℕ → ℕ) (ssh : String → Ssh) where
  open R use {Db, op, hset, op-hset}

  abbrev result : Host → SessionStatus
  result = host_result R percent ssh

  abbrev Fits : Host → Update → Type 0
  Fits h no_address = h.ip ≡ none
  Fits h (mark ip) = h.ip ≡ some ip
  Fits h (outcome answer) = ssh_status answer ≡ result h

  -- what holds of a handler at each `await`
  abbrev pub IsSound : String → Db → Host → Phase → Type 0
  IsSound id d h waiting = Unit
  IsSound id d h checking = ¬ Unit
  IsSound id d h (cancels s) = ¬ Unit
  IsSound id d h (reads u) = Fits h u
  IsSound id d h (writes u s) = Fits h u
  IsSound id d h (contacts ip) = h.ip ≡ some ip
  IsSound id d h (reports t) = status_of R d id h.hostname ≡ some (result h)
  IsSound id d h ended = status_of R d id h.hostname ≡ some (result h)

  result-none : (h : Host) → h.ip ≡ none → SessionStatus.failed ≡ result h
  unfolding host_result
  result-none h e = rw e

  result-some : (h : Host) (ip : String) → h.ip ≡ some ip → ssh_status (ssh ip) ≡ result h
  unfolding host_result
  result-some h ip e = rw e

  enter-IsSound : (id : String) (d : Db) (h : Host) → IsSound id d h (enter h.ip)
  enter-IsSound id d h = entered h.ip refl
    where
      entered : (o : Option String) → h.ip ≡ o → IsSound id d h (enter o)
      entered none e = e
      entered (some ip) e = e

  own_status :
      (d : Db) (id name : String) (s : Session) → status_of R (hset d id name s) id name ≡ s.status
  own_status d id name s = status_of-hset R d id name name s ∙ rw (eq_refl name)

  pub advance-IsSound :
      (now : ℕ) (id : String) (h : Host) (p : Phase) (r : Run R percent ssh)
      → Going R percent ssh r.db id
      → IsSound id r.db h p
      → IsSound id
          (advance R percent ssh now id h p r).1.db
          h
          (advance R percent ssh now id h p r).0
  unfolding advance
  advance-IsSound now id h waiting r g s = rw g (enter-IsSound id r.db h)
  advance-IsSound now id h checking r g s = absurd (s tt)
  advance-IsSound now id h (cancels c) r g s = absurd (s tt)
  advance-IsSound now id h (reads u) r g s = s
  advance-IsSound now id h (writes no_address c) r g s =
      own_status r.db id h.hostname _ ∙ ap some (result-none h s)
  advance-IsSound now id h (writes (mark ip) c) r g s = s
  advance-IsSound now id h (writes (outcome a) c) r g s =
      own_status r.db id h.hostname _ ∙ ap some s
  advance-IsSound now id h (contacts ip) r g s = result-some h ip s
  advance-IsSound now id h (reports t) r g s = status_of-hmset R r.db id id h.hostname _ ∙ s
  advance-IsSound now id h ended r g s = s

  -- The sessions of other hosts stay as they are.
  pub advance-others :
      (now : ℕ) (id : String) (h : Host) (p : Phase) (r : Run R percent ssh) (m : String)
      → str_eq h.hostname m ≡ false
      → status_of R (advance R percent ssh now id h p r).1.db id m ≡ status_of R r.db id m
  unfolding advance
  advance-others now id h (cancels s) r m e = status_of-hset R r.db id h.hostname m _ ∙ rw e
  advance-others now id h (writes u s) r m e = status_of-hset R r.db id h.hostname m _ ∙ rw e
  advance-others now id h (reports t) r m e = status_of-hmset R r.db id id m _
  advance-others now id h waiting r m e = refl
  advance-others now id h checking r m e = refl
  advance-others now id h (reads u) r m e = refl
  advance-others now id h (contacts ip) r m e = refl
  advance-others now id h ended r m e = refl

  -- No handler requests a cancellation.
  pub advance-Kept :
      (now : ℕ) (id : String) (h : Host) (p : Phase) (r : Run R percent ssh)
      → Kept R percent ssh r.db (advance R percent ssh now id h p r).1.db id
  unfolding advance
  advance-Kept now id h (cancels s) r =
      ap (λ (u : OpHash). u.cancel_requested) (op-hset r.db id h.hostname id _)
  advance-Kept now id h (writes u s) r =
      ap (λ (u : OpHash). u.cancel_requested) (op-hset r.db id h.hostname id _)
  advance-Kept now id h (reports t) r =
      ap (λ (u : OpHash). u.cancel_requested) (op-hmset_own R r.db id _)
  advance-Kept now id h waiting r = refl
  advance-Kept now id h checking r = refl
  advance-Kept now id h (reads u) r = refl
  advance-Kept now id h (contacts ip) r = refl
  advance-Kept now id h ended r = refl

  -- the part of a handler in the statistics
  abbrev pub share : Host → Phase → Stats → Stats
  share h p t = if is_settled p then count_status (result h) t else t

  share-enter : (h : Host) (o : Option String) (t : Stats) → share h (enter o) t ≡ t
  share-enter h none t = refl
  share-enter h (some ip) t = refl

  -- A step adds the handler's outcome to the statistics just if it settles the handler.
  pub advance-stats :
      (now : ℕ) (id : String) (h : Host) (p : Phase) (r : Run R percent ssh)
      → Going R percent ssh r.db id
      → IsSound id r.db h p
      → (b : Bool) × ((advance R percent ssh now id h p r).1.stats ≡ count_if b (result h) r.stats)
        × ((t : Stats)
            → share h (advance R percent ssh now id h p r).0 t
              ≡ count_if b (result h) (share h p t))
  unfolding advance
  advance-stats now id h waiting r g s = (false, refl, λ t. rw g (share-enter h h.ip t))
  advance-stats now id h checking r g s = absurd (s tt)
  advance-stats now id h (cancels c) r g s = absurd (s tt)
  advance-stats now id h (reads u) r g s = (false, refl, λ t. refl)
  advance-stats now id h (writes no_address c) r g s =
      (true, ap (λ st. count_status st r.stats) (result-none h s), λ t. refl)
  advance-stats now id h (writes (mark ip) c) r g s = (false, refl, λ t. refl)
  advance-stats now id h (writes (outcome a) c) r g s =
      (true, ap (λ st. count_status st r.stats) s, λ t. refl)
  advance-stats now id h (contacts ip) r g s = (false, refl, λ t. refl)
  advance-stats now id h (reports t) r g s = (false, refl, λ t. refl)
  advance-stats now id h ended r g s = (false, refl, λ t. refl)
