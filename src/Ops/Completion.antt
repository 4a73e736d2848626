-- ===== src/Ops/Completion.antt =====
-- `checkOperationCompletion`: when it closes an operation, and with which status.
use linbo_docker.Base.{
  ℕ, ◌+◌, String, ◌≡◌, refl, ap, ◌∙◌, Bool, true, false, ◌&&◌, ◌||◌, Option, none, some, List, [],
  ◌∷◌, arith, if◌then◌else◌, any, all, ltb, length, &&-true,
}
use linbo_docker.Ops.Data.{SessionStatus, OpStatus, Session, OpHash}
use linbo_docker.Ops.Redis.{Redis}
use linbo_docker.Ops.Sessions.{
  Tally, tally_from, tally, count_session, sessions, no_stats, completion,
  check_operation_completion,
}
use linbo_docker.Ops.Execute.{done_of}
use linbo_docker.Ops.Results.{op-hmset_own}

abbrev pub is_ended : Option SessionStatus → Bool
is_ended (some SessionStatus.success) = true
is_ended (some SessionStatus.failed) = true
is_ended (some SessionStatus.cancelled) = true
is_ended _ = false

abbrev pub is_cancelled : Option SessionStatus → Bool
is_cancelled (some SessionStatus.cancelled) = true
is_cancelled _ = false

abbrev ends : Session → Bool
ends s = is_ended s.status

abbrev is_cut : Session → Bool
is_cut s = is_cancelled s.status

and_assoc : (a b c : Bool) → ((a && b) && c) ≡ (a && (b && c))
and_assoc true b c = refl
and_assoc false b c = refl

or_assoc : (a b c : Bool) → ((a || b) || c) ≡ (a || (b || c))
or_assoc true b c = refl
or_assoc false b c = refl

-- what one session adds to the tally
record Counts (s : Option SessionStatus) (t u : Tally) : Type 0 where
  done : u.all_done ≡ (t.all_done && is_ended s)
  total : u.stats.total ≡ t.stats.total + 1
  sum : is_ended s ≡ true → done_of u.stats ≡ done_of t.stats + 1
  cut : ltb 0 u.stats.cancelled ≡ (ltb 0 t.stats.cancelled || is_cancelled s)

count_session-Counts : (s : Option SessionStatus) (t : Tally) → Counts s t (count_session s t)
count_session-Counts none t = ground arith
count_session-Counts (some SessionStatus.queued) t = ground arith
count_session-Counts (some s) t = ground arith

-- what all the sessions add
record CountsAll (ss : List Session) (t u : Tally) : Type 0 where
  done : u.all_done ≡ (t.all_done && all ends ss)
  total : u.stats.total ≡ t.stats.total + length ss
  sum : all ends ss ≡ true → done_of u.stats ≡ done_of t.stats + length ss
  cut : ltb 0 u.stats.cancelled ≡ (ltb 0 t.stats.cancelled || any is_cut ss)

tally_from-CountsAll : (ss : List Session) (t : Tally) → CountsAll ss t (tally_from t ss)
unfolding tally_from
tally_from-CountsAll [] t = record {
  done = ground arith;
  total = omega arith;
  sum = λ e. omega arith;
  cut = ground arith;
}
tally_from-CountsAll (s ∷ ss) t =
    let one = count_session-Counts s.status t in
    let rest = tally_from-CountsAll ss (count_session s.status t) in
    let parts = λ (e : all ends (s ∷ ss) ≡ true). &&-true (ends s) (all ends ss) e in
    record {
      done = rest.done ∙ rw one.done (and_assoc t.all_done (ends s) (all ends ss));
      total = omega (arith, rest.total, one.total);
      sum = λ e. omega (arith, rest.sum (parts e).1, one.sum (parts e).0);
      cut = rest.cut ∙ rw one.cut (or_assoc (ltb 0 t.stats.cancelled) (is_cut s) (any is_cut ss));
    }

-- the statistics and the decision of the loop
pub tally_lem :
    (ss : List Session)
    → ((tally ss).all_done ≡ all ends ss)
      × ((tally ss).stats.total ≡ length ss)
      × (all ends ss ≡ true → done_of (tally ss).stats ≡ length ss)
      × (ltb 0 (tally ss).stats.cancelled ≡ any is_cut ss)
unfolding tally
tally_lem ss =
    let start : Tally = record { all_done = true; stats = no_stats 0 } in
    let c = tally_from-CountsAll ss start in
    (c.done, omega (arith, c.total), λ e. omega (arith, c.sum e), c.cut)

module _ (R : Redis) where
  open R use {Db, op, hmset}

  -- the status that the sessions give
  abbrev pub closing_status : List Session → OpStatus
  closing_status ss = if any is_cut ss then OpStatus.cancelled else OpStatus.completed

  -- `checkOperationCompletion` closes an operation that has sessions, all of them ended: as
  -- cancelled if one of them is cancelled, else as completed, with statistics that count each
  -- session once. In every other case it writes nothing.
  pub check_operation_completion_lem :
      (now : ℕ) (id : String) (d : Db)
      → ((all (λ s. is_ended s.status) (sessions R d id) && ltb 0 (length (sessions R d id))) ≡ true
          → ((op (check_operation_completion R now id d) id).status
              ≡ some (closing_status (sessions R d id)))
            × ((op (check_operation_completion R now id d) id).stats
                ≡ some (tally (sessions R d id)).stats)
            × (done_of (tally (sessions R d id)).stats ≡ length (sessions R d id)))
        × ((all (λ s. is_ended s.status) (sessions R d id) && ltb 0 (length (sessions R d id)))
              ≡ false
            → check_operation_completion R now id d ≡ d)
  unfolding check_operation_completion
  check_operation_completion_lem now id d =
      let ss = sessions R d id in
      let l = tally_lem ss in
      let t : Tally = tally ss in
      let same : (t.all_done && ltb 0 t.stats.total) ≡ (all ends ss && ltb 0 (length ss)) =
        rw (l.0, l.1) in
      let written = op-hmset_own R d id (completion R now t) in
      (
        λ e.
            rw (same, e)
              (
                ap (λ (h : OpHash). h.status) written
                    ∙ ap (λ b. some (if b then OpStatus.cancelled else OpStatus.completed)) l.3,
                ap (λ (h : OpHash). h.stats) written,
                l.2 (&&-true (all ends ss) (ltb 0 (length ss)) e).0,
              ),
        λ e. rw (same, e),
      )
