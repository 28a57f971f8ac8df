-- ===== src/Updates/Machine/Progress.antt =====
-- The progress bar of `OnEvent`: bounds.
use roamux.Base.{String, false, ◌≡◌, List, [], ◌∷◌, arith}
use roamux.Updates.Machine.{
  DoubleOps, UpdateSnapshot, UpdateStateMachine, UpdateEvent, UpdateEventType, on_check_started,
  next_snapshot, on_event, run,
}

-- Between the two literals, as far as `<` tells: a NaN would pass both tests.
abbrev pub InUnit : {D : Type 0} → DoubleOps D → D → Type 0
InUnit fl p = (fl.less p fl.zero_point ≡ false) × (fl.less fl.one_point p ≡ false)

module _ {D : Type 0} (fl : DoubleOps D) (zero_irrefl : fl.less fl.zero_point fl.zero_point ≡ false)
    (one_irrefl : fl.less fl.one_point fl.one_point ≡ false)
    (one_not_below : fl.less fl.one_point fl.zero_point ≡ false) where
  next_snapshot-InUnit :
      (t : UpdateEventType) (skipped : String) (s : UpdateSnapshot D) (e : UpdateEvent)
      → InUnit fl s.progress
      → InUnit fl (next_snapshot fl t skipped s e).progress
  unfolding next_snapshot
  next_snapshot-InUnit on_check_started skipped s e h = ground arith
  next_snapshot-InUnit _ skipped s e h = ground arith

  -- Whatever events arrive, in whatever order and with whatever byte counts, the progress of a
  -- machine that began in range stays in range, if `<` on the two literals is as usual.
  pub run-InUnit :
      (m : UpdateStateMachine D) (es : List UpdateEvent)
      → InUnit fl m.snapshot.progress
      → InUnit fl (run fl m es).snapshot.progress
  unfolding run on_event
  run-InUnit m [] h = h
  run-InUnit m (e ∷ es) h =
      run-InUnit (on_event fl m e) es (next_snapshot-InUnit e.type m.skipped_version m.snapshot e h)
