-- ===== src/Updates/Machine/History.antt =====
-- The transitions of `OnEvent`, and what must have happened before an update is ready.
use roamux.Base.{
  String, ◌≡◌, refl, ◌⊎◌, inl, Bool, true, false, ◌||◌, List, [], ◌∷◌, arith, str_eq, str_eq_refl,
}
use roamux.Updates.Machine.{
  UpdateStatus, checking, up_to_date, available, downloading, ready_to_install, error,
  UpdateEventType, on_check_started, on_up_to_date, on_update_found, on_download_started,
  on_ready_to_install, on_error, UpdateEvent, DoubleOps, UpdateSnapshot, UpdateStateMachine,
  is_downloading, is_ready, new_machine, next_snapshot, on_event, run,
}
use roamux.Updates.Machine.Skipped.{is_offered}

-- The diagram: a status, an event, and the status that may follow.
pub data Edge : UpdateStatus → UpdateEventType → UpdateStatus → Type 0 where
  start : {s : UpdateStatus} → Edge s on_check_started checking
  nothing_new : Edge checking on_up_to_date up_to_date
  skip : Edge checking on_update_found up_to_date
  offer :
      {s : UpdateStatus}
      → is_downloading s ≡ false
      → is_ready s ≡ false
      → Edge s on_update_found available
  download : Edge available on_download_started downloading
  finish : Edge downloading on_ready_to_install ready_to_install
  fail : {s : UpdateStatus} → Edge s on_error error
  stay : {s : UpdateStatus} {t : UpdateEventType} → Edge s t s

found : String → UpdateEventType → UpdateEvent → Bool
found v on_update_found e = str_eq e.version v
found v _ e = false

-- Some event of the list offers the version `v`.
pub found_in : String → List UpdateEvent → Bool
unfolding found
found_in v [] = false
found_in v (e ∷ es) = found v e.type e || found_in v es

module _ {D : Type 0} (fl : DoubleOps D) where
  next_snapshot-Edge :
      (t : UpdateEventType) (skipped : String) (s : UpdateSnapshot D) (e : UpdateEvent)
      → Edge s.status t (next_snapshot fl t skipped s e).status
  unfolding next_snapshot
  next_snapshot-Edge on_check_started skipped s e = start
  next_snapshot-Edge on_error skipped s e = fail
  next_snapshot-Edge _ skipped s e = grind (arith, nothing_new, skip, offer, download, finish, stay)

  -- Every event moves the status along an edge of the diagram.
  on_event-Edge :
      (m : UpdateStateMachine D) (e : UpdateEvent)
      → Edge m.snapshot.status e.type (on_event fl m e).snapshot.status
  unfolding on_event
  on_event-Edge m e = next_snapshot-Edge e.type m.skipped_version m.snapshot e

  offered_step :
      (t : UpdateEventType) (skipped : String) (s : UpdateSnapshot D) (e : UpdateEvent)
      → let s' = next_snapshot fl t skipped s e in
        is_offered s'.status ≡ true
        → ((is_offered s.status ≡ true) × (s'.version ≡ s.version)) ⊎ (found s'.version t e ≡ true)
  unfolding next_snapshot found
  offered_step on_check_started skipped s e h = ground arith
  offered_step on_update_found skipped s e h = ground (arith, str_eq_refl e.version)
  offered_step _ skipped s e h = ground arith

  offered_on_event :
      (m : UpdateStateMachine D) (e : UpdateEvent)
      → let s' = (on_event fl m e).snapshot in
        is_offered s'.status ≡ true
        → ((is_offered m.snapshot.status ≡ true) × (s'.version ≡ m.snapshot.version))
          ⊎ (found s'.version e.type e ≡ true)
  unfolding on_event
  offered_on_event m e h = offered_step e.type m.skipped_version m.snapshot e h

  offered_run :
      (m : UpdateStateMachine D) (es : List UpdateEvent)
      → let s' = (run fl m es).snapshot in
        is_offered s'.status ≡ true
        → ((is_offered m.snapshot.status ≡ true) × (s'.version ≡ m.snapshot.version))
          ⊎ (found_in s'.version es ≡ true)
  unfolding run found_in
  offered_run m [] h = inl (h, refl)
  offered_run m (e ∷ es) h =
      ground (arith, offered_run (on_event fl m e) es h, offered_on_event m e)

  -- Whatever events arrive at a fresh machine, an update that stands in the row, ready to install
  -- or before, is a version that one of the events found.
  pub run-offered_was_found :
      (es : List UpdateEvent)
      → let s = (run fl (new_machine fl) es).snapshot in
        is_offered s.status ≡ true → found_in s.version es ≡ true
  unfolding new_machine
  run-offered_was_found es h = ground (arith, offered_run (new_machine fl) es)

  -- A find of a version that is not skipped, the start of its download and its end lead every
  -- machine that is not downloading or ready to that version, ready to install, with the bar full.
  run-install :
      (m : UpdateStateMachine D) (a b c : UpdateEvent)
      → is_downloading m.snapshot.status ≡ false
      → is_ready m.snapshot.status ≡ false
      → str_eq a.version m.skipped_version ≡ false
      → a.type ≡ on_update_found
      → b.type ≡ on_download_started
      → c.type ≡ on_ready_to_install
      → (run fl m (a ∷ b ∷ c ∷ [])).snapshot ≡ record {
        status = ready_to_install;
        version = a.version;
        date = a.date;
        notes = a.notes;
        error_text = "";
        progress = fl.one_point;
      }
  unfolding run on_event next_snapshot
  run-install m a b c nd nr ns ta tb tc = rw (ta, tb, tc) (ground arith)
