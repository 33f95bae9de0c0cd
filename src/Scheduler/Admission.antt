-- ===== src/Scheduler/Admission.antt =====
-- `AdmissionController` of src/ragplan/scheduler/executor.py. Entering and leaving the context
-- manager are two steps, each under the lock; the body between them may end by a result, an
-- exception or a cancellation, and leaves by the same `finally`.
use oss.Prelude.{
  ℕ, suc, ◌+◌, ◌-◌, ◌≤◌, ◌<◌, ◌≡◌, refl, ◌∙◌, none, List, [], ◌∷◌, arith, leb, ltb, if◌then◌else◌,
}
use oss.Core.Errors.{
  Exception, rag, overloaded, ragplan_error, Result, ok, raise, value_error, raise_if, ◌>>◌,
}

abbrev pub default_in_flight_limit : ℕ
default_in_flight_limit = 32

pub record AdmissionController : Type 0 where
  pub limit : ℕ
  pub in_flight : ℕ

-- AdmissionController.__init__
unfoldable pub new : ℕ → Result AdmissionController
new limit = do raise_if (ltb limit 1) value_error; ok (record { limit = limit; in_flight = 0 })

abbrev pub over_capacity : Exception
over_capacity = rag (ragplan_error overloaded none none)

-- `slot` up to its `yield`
unfoldable pub enter : AdmissionController → Result (Unit {0}) × AdmissionController
enter c =
    if leb c.limit c.in_flight
    then (raise over_capacity, c)
    else (ok tt, record c { in_flight = c.in_flight + 1 })

-- The `finally` of `slot`
unfoldable pub leave : AdmissionController → AdmissionController
leave c = record c { in_flight = c.in_flight - 1 }

-- A request arrives, or one of those inside ends, in whatever way.
pub data Move : Type 0 where
  arrive finish : Move

-- The controller, the requests inside the context manager, and the arrivals that were turned away.
pub record Hall : Type 0 where
  pub controller : AdmissionController
  pub inside : ℕ
  pub rejected : ℕ

abbrev seat : Hall → Result (Unit {0}) × AdmissionController → Hall
seat h (ok _, c) = record h { controller = c; inside = suc h.inside }
seat h (raise e, c) = record h { controller = c; rejected = suc h.rejected }

-- Only a request that is inside can end.
unfoldable pub move : Hall → Move → Hall
unfolding enter leave
move h arrive = seat h (enter h.controller)
move h finish =
    if leb 1 h.inside
    then record h { controller = leave h.controller; inside = h.inside - 1 }
    else h

unfoldable pub move_all : Hall → List Move → Hall
move_all h [] = h
move_all h (m ∷ ms) = move_all (move h m) ms

-- How many requests arrive.
abbrev pub arrivals : List Move → ℕ
arrivals [] = 0
arrivals (arrive ∷ ms) = suc (arrivals ms)
arrivals (finish ∷ ms) = arrivals ms

pub record IsCounted (h : Hall) : Type 0 where
  pub counted : h.controller.in_flight ≡ h.inside
  pub within : h.inside ≤ h.controller.limit

move-IsCounted : (h : Hall) (m : Move) → IsCounted h → IsCounted (move h m)
unfolding move
move-IsCounted h m i = ground arith

limit-move : (h : Hall) (m : Move) → (move h m).controller.limit ≡ h.controller.limit
unfolding move
limit-move h m = ground arith

-- From any counted state, under every interleaving of arrivals and ends, the counter stays the
-- number of requests inside, which never passes the limit: no slot leaks and none is given twice.
pub move_all-IsCounted :
    (h : Hall) (ms : List Move)
    → IsCounted h
    → IsCounted (move_all h ms) × ((move_all h ms).controller.limit ≡ h.controller.limit)
unfolding move_all
move_all-IsCounted h [] i = (i, refl)
move_all-IsCounted h (m ∷ ms) i =
    let (j, same) = move_all-IsCounted (move h m) ms (move-IsCounted h m i) in
    (j, same ∙ limit-move h m)

move-arrive :
    (h : Hall)
    → IsCounted h
    → h.inside < h.controller.limit
    → ((move h arrive).rejected ≡ h.rejected) × ((move h arrive).inside ≡ suc h.inside)
unfolding move
move-arrive h i room = ground arith

move-finish :
    (h : Hall) → ((move h finish).rejected ≡ h.rejected) × ((move h finish).inside ≤ h.inside)
unfolding move
move-finish h = ground arith

-- From a counted state, if the requests inside and all that are still to arrive fit under the limit,
-- none is refused, whenever the others end.
pub none_refused_below_limit :
    (h : Hall) (ms : List Move)
    → IsCounted h
    → h.inside + arrivals ms ≤ h.controller.limit
    → (move_all h ms).rejected ≡ h.rejected
unfolding move_all
none_refused_below_limit h [] i fits = refl
none_refused_below_limit h (arrive ∷ ms) i fits =
    let (kept, one) = move-arrive h i (omega arith) in
    none_refused_below_limit (move h arrive) ms (move-IsCounted h arrive i)
      (omega (arith, limit-move h arrive, one))
    ∙ kept
none_refused_below_limit h (finish ∷ ms) i fits =
    let (kept, fewer) = move-finish h in
    none_refused_below_limit (move h finish) ms (move-IsCounted h finish i)
      (omega (arith, limit-move h finish, fewer))
    ∙ kept
