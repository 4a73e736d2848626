-- ===== src/Ops/Turns.antt =====
-- The handlers of `executeDirectCommands` in any order of their steps, when no cancellation is
-- requested: what holds at every moment.
use text.Mathlib.Text.{◌==◌ as str_eq}
use text.Mathlib.TextEquality.{eq_iff}
use text.Mathlib.TextPositions.{eq_refl}
use mathlib.Core.Bool.{false≢true}
use mathlib.Core.Path.{subst}
use linbo_docker.Base.{
  ℕ, zero, suc, String, ◌≡◌, refl, sym, ap, ◌∙◌, Bool, true, false, List, [], ◌∷◌, map, All,
  if◌then◌else◌, inl, inr, Bool-cases,
}
use linbo_docker.Ops.Data.{SessionStatus, Stats, Host}
use linbo_docker.Ops.Redis.{Redis}
use linbo_docker.Ops.Execute.{Ssh, count_status, is_set, Run}
use linbo_docker.Ops.Results.{status_of, host_result, Going, Kept}
use linbo_docker.Ops.Handlers.{
  Phase, waiting, checking, ended, cancels, reads, writes, contacts, reports, Turns, turn, turns,
}
use linbo_docker.Ops.HandlerSteps.{
  is_settled, IsSound, advance-IsSound, advance-others, advance-Kept, share, count_if,
  advance-stats,
}

-- no two hosts have the same name
abbrev pub IsApart : List Host → Type 0
IsApart [] = Unit
IsApart (h ∷ hs) = All (λ (g : Host). str_eq h.hostname g.hostname ≡ false) hs × IsApart hs

abbrev pub hosts_of : List (Host × Phase) → List Host
hosts_of = map (λ x. x.0)

pub All-flip :
    (name : String) (hs : List Host)
    → All (λ (g : Host). str_eq name g.hostname ≡ false) hs
    → All (λ (g : Host). str_eq g.hostname name ≡ false) hs
All-flip name [] a = tt
All-flip name (h ∷ hs) (e, a) = (flip name h.hostname e, All-flip name hs a)
  where
    flip : (m n : String) → str_eq m n ≡ false → str_eq n m ≡ false
    flip m n e = elim (Bool-cases (str_eq n m)) [
      | inr other ↦ other
      | inl same ↦ absurd (false≢true (sym e ∙ (rw ((eq_iff n m).0 same) (eq_refl m))))
    ]

count_status_comm :
    (a b : SessionStatus) (t : Stats)
    → count_status a (count_status b t) ≡ count_status b (count_status a t)
count_status_comm SessionStatus.queued b t = refl
count_status_comm SessionStatus.running b t = refl
count_status_comm SessionStatus.success SessionStatus.queued t = refl
count_status_comm SessionStatus.success SessionStatus.running t = refl
count_status_comm SessionStatus.success SessionStatus.success t = refl
count_status_comm SessionStatus.success SessionStatus.failed t = refl
count_status_comm SessionStatus.success SessionStatus.cancelled t = refl
count_status_comm SessionStatus.failed SessionStatus.queued t = refl
count_status_comm SessionStatus.failed SessionStatus.running t = refl
count_status_comm SessionStatus.failed SessionStatus.success t = refl
count_status_comm SessionStatus.failed SessionStatus.failed t = refl
count_status_comm SessionStatus.failed SessionStatus.cancelled t = refl
count_status_comm SessionStatus.cancelled SessionStatus.queued t = refl
count_status_comm SessionStatus.cancelled SessionStatus.running t = refl
count_status_comm SessionStatus.cancelled SessionStatus.success t = refl
count_status_comm SessionStatus.cancelled SessionStatus.failed t = refl
count_status_comm SessionStatus.cancelled SessionStatus.cancelled t = refl

module _ (R : Redis) (percent : ℕ → ℕ → ℕ) (ssh : String → Ssh) where
  open R use {Db, op, hmset}

  abbrev pub result : Host → SessionStatus
  result = host_result R percent ssh

  -- the outcomes of the settled handlers, on top of these statistics
  abbrev pub settled : List (Host × Phase) → Stats → Stats
  settled [] t = t
  settled ((h, p) ∷ hs) t = settled hs (share R percent ssh h p t)

  abbrev pub AreSound : String → Db → List (Host × Phase) → Type 0
  AreSound id d hs = All (λ (x : Host × Phase). IsSound R percent ssh id d x.0 x.1) hs

  settled-count_if :
      (hs : List (Host × Phase)) (b : Bool) (st : SessionStatus) (t : Stats)
      → settled hs (count_if b st t) ≡ count_if b st (settled hs t)
  settled-count_if [] b st t = refl
  settled-count_if ((h, p) ∷ hs) b st t =
      ap (settled hs) (swapped (is_settled p) b) ∙ settled-count_if hs b st _
    where
      swapped :
          (c d : Bool)
          → (if c then count_status (result h) (count_if d st t) else count_if d st t)
            ≡ count_if d st (if c then count_status (result h) t else t)
      swapped true true = count_status_comm (result h) st t
      swapped true false = refl
      swapped false d = refl

  -- what a turn of a handler in this list leaves
  record AfterTurn (id : String) (hs : List (Host × Phase)) (r : Run R percent ssh)
      (s : Turns R percent ssh) : Type 0 where
    same_hosts : hosts_of s.handlers ≡ hosts_of hs
    sound : AreSound id s.run.db s.handlers
    others :
        (m : String)
        → All (λ (h : Host). str_eq h.hostname m ≡ false) (hosts_of hs)
        → status_of R s.run.db id m ≡ status_of R r.db id m
    kept : Kept R percent ssh r.db s.run.db id
    counted :
        (b : Bool) × (st : SessionStatus) × (s.run.stats ≡ count_if b st r.stats)
        × ((t : Stats) → settled s.handlers t ≡ count_if b st (settled hs t))

  -- Soundness of a handler is a matter of its own session.
  IsSound-same :
      (id : String) (d d' : Db) (h : Host) (p : Phase)
      → status_of R d' id h.hostname ≡ status_of R d id h.hostname
      → IsSound R percent ssh id d h p
      → IsSound R percent ssh id d' h p
  IsSound-same id d d' h (reports t) e s = e ∙ s
  IsSound-same id d d' h ended e s = e ∙ s
  IsSound-same id d d' h waiting e s = s
  IsSound-same id d d' h checking e s = s
  IsSound-same id d d' h (cancels c) e s = s
  IsSound-same id d d' h (reads u) e s = s
  IsSound-same id d d' h (writes u c) e s = s
  IsSound-same id d d' h (contacts ip) e s = s

  AreSound-same :
      (id name : String) (d d' : Db) (hs : List (Host × Phase))
      → ((m : String) → str_eq name m ≡ false → status_of R d' id m ≡ status_of R d id m)
      → All (λ (h : Host). str_eq name h.hostname ≡ false) (hosts_of hs)
      → AreSound id d hs
      → AreSound id d' hs
  AreSound-same id name d d' [] e a s = tt
  AreSound-same id name d d' ((h, p) ∷ hs) e (ne, a) (own, s) =
      (IsSound-same id d d' h p (e h.hostname ne) own, AreSound-same id name d d' hs e a s)

  turn-AfterTurn :
      (now : ℕ) (id : String) (i : ℕ) (hs : List (Host × Phase)) (r : Run R percent ssh)
      → IsApart (hosts_of hs)
      → Going R percent ssh r.db id
      → AreSound id r.db hs
      → AfterTurn id hs r (turn R percent ssh now id i hs r)
  unfolding turn
  turn-AfterTurn now id i [] r a g s = record {
    same_hosts = refl;
    sound = tt;
    others = λ m e. refl;
    kept = refl;
    counted = (false, SessionStatus.queued, refl, λ t. refl);
  }
  turn-AfterTurn now id zero ((h, p) ∷ hs) r a g s =
      let others = advance-others R percent ssh now id h p r in
      let (b, stats, shares) = advance-stats R percent ssh now id h p r g s.0 in
      record {
        same_hosts = refl;
        sound = (
          advance-IsSound R percent ssh now id h p r g s.0,
          AreSound-same id h.hostname r.db _ hs others a.0 s.1,
        );
        others = λ m e. others m e.0;
        kept = advance-Kept R percent ssh now id h p r;
        counted = (
          b,
          result h,
          stats,
          λ t. ap (settled hs) (shares t) ∙ settled-count_if hs b (result h) _,
        );
      }
  turn-AfterTurn now id (suc i) ((h, p) ∷ hs) r a g s =
      let rest = turn-AfterTurn now id i hs r a.1 g s.1 in
      let (b, st, stats, counts) = rest.counted in
      record {
        same_hosts = ap (◌∷◌ h) rest.same_hosts;
        sound = (
          IsSound-same id r.db _ h p
              (rest.others h.hostname (All-flip h.hostname (hosts_of hs) a.0)) s.0,
          rest.sound,
        );
        others = λ m e. rest.others m e.1;
        kept = rest.kept;
        counted = (b, st, stats, λ t. counts (share R percent ssh h p t));
      }

  -- what holds all along
  pub record IsGood (id : String) (hosts : List Host) (t : Stats) (s : Turns R percent ssh)
      : Type 0 where
    pub same_hosts : hosts_of s.handlers ≡ hosts
    pub going : Going R percent ssh s.run.db id
    pub sound : AreSound id s.run.db s.handlers
    pub counted : s.run.stats ≡ settled s.handlers t

  turn-IsGood :
      (now : ℕ) (id : String) (i : ℕ) (hosts : List Host) (t : Stats) (s : Turns R percent ssh)
      → IsApart hosts
      → IsGood id hosts t s
      → IsGood id hosts t (turn R percent ssh now id i s.handlers s.run)
  turn-IsGood now id i hosts t s a good =
      let one =
        turn-AfterTurn now id i s.handlers s.run (subst IsApart (sym good.same_hosts) a) good.going
          good.sound in
      let (b, st, stats, counts) = one.counted in
      record {
        same_hosts = one.same_hosts ∙ good.same_hosts;
        going = ap is_set one.kept ∙ good.going;
        sound = one.sound;
        counted = stats ∙ ap (count_if b st) good.counted ∙ sym (counts t);
      }

  pub turns-IsGood :
      (id : String) (hosts : List Host) (t : Stats) (schedule : List (ℕ × ℕ))
      (s : Turns R percent ssh)
      → IsApart hosts
      → IsGood id hosts t s
      → IsGood id hosts t (turns R percent ssh id schedule s)
  unfolding turns
  turns-IsGood id hosts t [] s a good = good
  turns-IsGood id hosts t ((now, i) ∷ schedule) s a good =
      turns-IsGood id hosts t schedule _ a (turn-IsGood now id i hosts t s a good)
