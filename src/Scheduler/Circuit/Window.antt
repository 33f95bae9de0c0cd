-- ===== src/Scheduler/Circuit/Window.antt =====
-- When the breaker opens, that nothing disturbs its open window, and how it recovers.
use oss.Prelude.{
  ℕ, suc, ◌+◌, ◌≤◌, ◌<◌, ◌≡◌, inl, inr, refl, ◌∙◌, Bool-cases, false, List, [], ◌∷◌, arith, length,
  if◌then◌else◌, leb,
}
use oss.Core.Errors.{Exception, ok, raise}
use oss.Core.Kinds.{closed, open_circuit}
use oss.Scheduler.Circuit.{CircuitBreaker, acquire}
use oss.Scheduler.Circuit.Invariant.{
  Verdict, success, failure, ignored, World, Action, tick, act, act_all, act-Inv, Inv, settle,
  normal_permit, probe_permit,
}

-- Failures one after another, each with the clock's reading, of permits that are no probes.
unfoldable pub fail_all : CircuitBreaker → List ℕ → CircuitBreaker
fail_all c [] = c
fail_all c (now ∷ readings) = fail_all (settle c normal_permit failure now) readings

fail_opened :
    (c : CircuitBreaker) (readings : List ℕ) → c.state ≡ open_circuit → fail_all c readings ≡ c
unfolding fail_all settle
fail_opened c [] h = refl
fail_opened c (now ∷ readings) h = ground (arith, fail_opened c readings h)

-- A closed breaker that has counted no failure yet opens with exactly the failure that reaches the
-- threshold, and stays closed with every failure counted before that.
pub opens_at_threshold :
    (c : CircuitBreaker) (readings : List ℕ)
    → c.state ≡ closed
    → c.failures < c.threshold
    → (fail_all c readings).state
      ≡ (if leb c.threshold (c.failures + length readings) then open_circuit else closed)
unfolding fail_all settle
opens_at_threshold c [] h below = ground arith
opens_at_threshold c (now ∷ readings) h below =
    let next = settle c normal_permit failure now in
    elim (Bool-cases (leb c.threshold (suc c.failures))) [
      | inl full ↦
          let e : next.state ≡ open_circuit = ground arith in
          rw (fail_opened next readings e) (ground arith)
      | inr room ↦ ground (
        arith,
        opens_at_threshold (record c { failures = suc c.failures }) readings h (ground arith),
      )
    ]

-- What a step adds to the clock.
abbrev pub elapses : Action → ℕ
elapses (tick n) = n
elapses _ = 0

abbrev pub total : List Action → ℕ
total [] = 0
total (a ∷ rest) = elapses a + total rest

sealed_step :
    (w : World) (a : Action)
    → Inv w
    → w.breaker.state ≡ open_circuit
    → w.now + elapses a < w.breaker.open_until_ns
    → ((act w a).breaker ≡ w.breaker)
      × ((act w a).now ≡ w.now + elapses a)
      × ((act w a).normals ≤ w.normals)
      × ((act w a).probes ≡ w.probes)
unfolding act
sealed_step w a i h open_still = ground arith

-- While the open window lasts, nothing that the requests do disturbs it: whatever stale results
-- arrive, the breaker stays as it was, `acquire` grants no permit, and the clock alone moves on.
pub open_window_sealed :
    (w : World) (actions : List Action)
    → Inv w
    → w.breaker.state ≡ open_circuit
    → w.now + total actions < w.breaker.open_until_ns
    → let v = act_all w actions in
      (v.breaker ≡ w.breaker)
      × (v.normals ≤ w.normals)
      × (v.probes ≡ 0)
      × ((acquire v.breaker v.now).0 ≡ raise Exception.circuit_open)
unfolding act_all acquire
open_window_sealed w [] i h t = ground (arith, i)
open_window_sealed w (a ∷ rest) i h t =
    let s = sealed_step w a i h (omega arith) in
    let later : (act w a).now + total rest < (act w a).breaker.open_until_ns =
      rw (s.0, s.1) (omega arith) in
    let (same, fewer, none_out, refused) =
      open_window_sealed (act w a) rest (act-Inv w a i) (rw s.0 h) later in
    (same ∙ s.0, omega arith, none_out, refused)

-- Once the window is over, `acquire` grants one probe. Its success closes the breaker with no
-- failure counted, its failure opens a new whole window, and if it is ignored the window is over at
-- once, so that the next `acquire` is a probe again. The probe is released in each case.
pub probe_verdicts :
    (c : CircuitBreaker) (now later : ℕ)
    → c.state ≡ open_circuit
    → c.probe_in_flight ≡ false
    → c.open_until_ns ≤ now
    → now ≤ later
    → let d = (acquire c now).1 in
      ((acquire c now).0 ≡ ok probe_permit)
      × ((settle d probe_permit success later).state ≡ closed)
      × ((settle d probe_permit success later).failures ≡ 0)
      × ((settle d probe_permit failure later).state ≡ open_circuit)
      × ((settle d probe_permit failure later).open_until_ns ≡ later + c.open_ns)
      × ((acquire (settle d probe_permit ignored later) later).0 ≡ ok probe_permit)
      × ((v : Verdict) → (settle d probe_permit v later).probe_in_flight ≡ false)
unfolding acquire settle
probe_verdicts c now later h f over t = ground arith
