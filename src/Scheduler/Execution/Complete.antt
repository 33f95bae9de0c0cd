-- ===== src/Scheduler/Execution/Complete.antt =====
-- What `execute` needs of the event loop, and that collecting completed tasks and expiring pending
-- ones leaves a sound outcome for each of them.
use oss.Prelude.{
  ℕ, ◌+◌, ◌≤◌, ◌≡◌, ◌⊎◌, inl, inr, refl, Bool, true, false, ◌||◌, none, some, List, [], ◌∷◌, arith,
  length, Bool-cases, subst,
}
use oss.Core.Errors.{Exception, CancelMessage, ok, raise}
use oss.Core.Kinds.{BranchKind, CancellationReason, same_kind}
use oss.Core.Deadline.{Deadline}
use oss.Scheduler.Circuit.{CircuitBreaker}
use oss.Scheduler.Branch.{BranchOutcome, Settled}
use oss.Scheduler.Branch.Shape.{IsSound, IsSoundResult, run_branch-IsSound, check_terminal_shape}
use oss.Scheduler.Tasks.{
  CancelCourse, not_started, resumed, Wake, woken, interrupted, EventLoop, Progress, Step, has,
  keep_outcome, run_course, run_cancelled,
}
use oss.Scheduler.Execution.{collect, store_expired, expired_outcome, expire_pending}

-- What `asyncio.wait` promises: each pending task is either completed or still pending.
abbrev pub IsAnswer : List BranchKind → Wake → Type 0
IsAnswer pending (interrupted m) = Unit
IsAnswer pending (woken completed still) =
    (length completed + length still ≡ length pending)
    × ((k : BranchKind) → has k pending ≡ (has k completed || has k still))

abbrev pub IsForward : {Hit Trace : Type 0} → CancelCourse Hit Trace → Type 0
IsForward not_started = Unit
IsForward (resumed c) = c.starts ≤ c.readings.finished

-- An event loop that keeps the promise of `asyncio.wait`, over a clock that runs forward.
pub record IsFair {Hit Trace : Type 0} (l : EventLoop Hit Trace) : Type 0 where
  pub answers : (n : ℕ) (pending : List BranchKind) → IsAnswer pending (l.wait n pending)
  pub finishing : (k : BranchKind) → (l.finishing k).starts ≤ (l.finishing k).readings.finished
  pub cancelling :
      (reason : CancellationReason) (k : BranchKind) → IsForward (l.cancelling reason k)

same_kind-eq : (j k : BranchKind) → same_kind j k ≡ true → j ≡ k
same_kind-eq j k h = ground arith

module _ {Hit Trace : Type 0} where
  -- The branch has a sound outcome.
  abbrev pub IsDone : Progress Hit Trace → BranchKind → Type 0
  IsDone p k = (o : BranchOutcome Hit Trace) × (p.outcomes k ≡ some o) × IsSoundResult k o.result

  -- Each branch of the works is awaited, or done.
  abbrev pub Tracks : List BranchKind → (BranchKind → Bool) → Progress Hit Trace → Type 0
  Tracks kinds awaited p = (k : BranchKind) → has k kinds ≡ true → (awaited k ≡ true) ⊎ IsDone p k

  -- The loop ended with `P`, or because the request was cancelled.
  abbrev pub Ends : EventLoop Hit Trace → (Progress Hit Trace → Type 0) → Step Hit Trace → Type 0
  Ends l P (ok _, p) = P p
  Ends l P (raise e, p) =
      (m : CancelMessage) × (e ≡ Exception.cancelled m)
      × (n : ℕ) × (pending : List BranchKind) × (l.wait n pending ≡ interrupted m)

  keep-Tracks :
      (kinds : List BranchKind) (before after : BranchKind → Bool) (j : BranchKind)
      (o : BranchOutcome Hit Trace) (c : CircuitBreaker) (p : Progress Hit Trace)
      → ((k : BranchKind) → same_kind j k ≡ false → before k ≡ true → after k ≡ true)
      → IsSoundResult j o.result
      → Tracks kinds before p
      → Tracks kinds after (keep_outcome j (o, c) p)
  keep-Tracks kinds before after j o c p other sound t k known = elim (Bool-cases (same_kind j k)) [
    | inl same ↦
        inr (o, rw same, subst (λ i. IsSoundResult i o.result) (same_kind-eq j k same) sound)
    | inr apart ↦ elim (t k known) [
      | inl b ↦ inl (other k apart b)
      | inr (o', e, g) ↦ inr (o', rw apart e, g)
    ]
  ]

  IsSound-ok :
      (k : BranchKind) (s : Settled Hit Trace)
      → IsSound k s
      → (o : BranchOutcome Hit Trace) × (c : CircuitBreaker) × (s ≡ ok (o, c))
        × IsSoundResult k o.result
  IsSound-ok k (ok (o, c)) h = (o, c, refl, h)
  IsSound-ok k (raise e) h = absurd h

module _ {Hit Trace : Type 0} (kinds : List BranchKind) (d : Deadline) (l : EventLoop Hit Trace)
    (fair : IsFair l) where
  finishing-IsSound :
      (p : Progress Hit Trace) (k : BranchKind) → IsSound k (run_course d none p k (l.finishing k))
  finishing-IsSound p k =
      let c = l.finishing k in
      run_branch-IsSound k d none c.starts c.asks c.readings (p.circuits k) c.others c.end
        (fair.finishing k)

  -- Collecting completed tasks succeeds, and they are done after it.
  pub collect_lem :
      (ks : List BranchKind) (still : BranchKind → Bool) (p : Progress Hit Trace)
      → Tracks kinds (λ k. has k ks || still k) p
      → (p' : Progress Hit Trace) × (collect d l ks p ≡ (ok tt, p')) × Tracks kinds still p'
  unfolding collect
  collect_lem [] still p t = (p, refl, t)
  collect_lem (k ∷ ks) still p t =
      let (o, c, e, sound) =
        IsSound-ok k (run_course d none p k (l.finishing k)) (finishing-IsSound p k) in
      let (p', e', t') =
        collect_lem ks still (keep_outcome k (o, c) p)
          (keep-Tracks kinds _ _ k o c p (λ i apart b. ground arith) sound t) in
      (p', rw e e', t')

  pub expired-IsSoundResult :
      (k : BranchKind) (now : ℕ)
      → IsSoundResult k (expired_outcome {Hit = Hit} {Trace = Trace} d now k).result
  unfolding check_terminal_shape
  expired-IsSoundResult k now = ground arith

  -- A cancelled task leaves a sound outcome, its own or the scheduler's.
  store_expired_lem :
      (k : BranchKind) (now : ℕ) (reason : CancellationReason) (p : Progress Hit Trace)
      (cc' : CancelCourse Hit Trace)
      → IsForward cc'
      → (o : BranchOutcome Hit Trace) × (c : CircuitBreaker) × (store_expired d now k
            (run_cancelled d reason p k cc')
            p
          ≡ (ok tt, keep_outcome k (o, c) p))
        × IsSoundResult k o.result
  store_expired_lem k now reason p not_started h =
      (expired_outcome d now k, p.circuits k, refl, expired-IsSoundResult k now)
  store_expired_lem k now reason p (resumed c) h =
      let (o, b, e, sound) = IsSound-ok k (run_course d (some reason) p k c) (
        run_branch-IsSound k d (some reason) c.starts c.asks c.readings (p.circuits k) c.others
          c.end h) in
      (o, b, rw e, sound)

  pub expire_lem :
      (ks : List BranchKind) (p : Progress Hit Trace)
      → Tracks kinds (λ k. has k ks) p
      → (p' : Progress Hit Trace) × (expire_pending d l ks p ≡ (ok tt, p'))
        × Tracks kinds (λ k. false) p'
  unfolding expire_pending
  expire_lem [] p t = (p, refl, t)
  expire_lem (k ∷ ks) p t =
      let reason = CancellationReason.application_deadline in
      let (o, c, e, sound) =
        store_expired_lem k (l.boundary k) reason p (l.cancelling reason k)
          (fair.cancelling reason k) in
      let (p', e', t') =
        expire_lem ks (keep_outcome k (o, c) p)
          (keep-Tracks kinds _ _ k o c p (λ i apart b. ground arith) sound t) in
      (p', rw e e', t')
