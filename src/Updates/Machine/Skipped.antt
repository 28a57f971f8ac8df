-- ===== src/Updates/Machine/Skipped.antt =====
-- The skipped version of `UpdateStateMachine`: what may be offered.
use roamux.Base.{
  String, ◌≡◌, ◌≢◌, Bool, true, false, List, [], ◌∷◌, arith, str_eq, str_eq_iff, is_empty,
}
use roamux.Updates.Machine.{
  UpdateStatus, available, downloading, ready_to_install, UpdateEventType, on_check_started,
  on_update_found, UpdateEvent, DoubleOps, UpdateSnapshot, UpdateStateMachine, new_machine,
  set_skipped_version, next_snapshot, on_event, run,
}

-- An update stands in the row: offered, on its way, or ready.
abbrev pub is_offered : UpdateStatus → Bool
is_offered available = true
is_offered downloading = true
is_offered ready_to_install = true
is_offered _ = false

abbrev Honours : {D : Type 0} → String → UpdateSnapshot D → Type 0
Honours skipped s = is_offered s.status ≡ true → str_eq s.version skipped ≡ false

module _ {D : Type 0} (fl : DoubleOps D) where
  next_snapshot-Honours :
      (t : UpdateEventType) (skipped : String) (s : UpdateSnapshot D) (e : UpdateEvent)
      → is_empty skipped ≡ false
      → Honours skipped s
      → Honours skipped (next_snapshot fl t skipped s e)
  unfolding next_snapshot
  next_snapshot-Honours on_check_started skipped s e n h = ground arith
  next_snapshot-Honours on_update_found skipped s e n h =
      ground (arith, str_eq_iff e.version "", str_eq_iff e.version skipped, str_eq_iff skipped "")
  next_snapshot-Honours _ skipped s e n h = ground arith

  run-Honours :
      (m : UpdateStateMachine D) (es : List UpdateEvent)
      → is_empty m.skipped_version ≡ false
      → Honours m.skipped_version m.snapshot
      → Honours m.skipped_version (run fl m es).snapshot
  unfolding run on_event
  run-Honours m [] n h = h
  run-Honours m (e ∷ es) n h =
      run-Honours (on_event fl m e) es n
        (next_snapshot-Honours e.type m.skipped_version m.snapshot e n h)

  -- Once a version is skipped on a fresh machine, no events make the row offer, download or get
  -- ready that version.
  pub run-skipped_never_offered :
      (v : String) (es : List UpdateEvent)
      → is_empty v ≡ false
      → let s = (run fl (set_skipped_version fl (new_machine fl) v) es).snapshot in
        is_offered s.status ≡ true → s.version ≢ v
  unfolding set_skipped_version new_machine
  run-skipped_never_offered v es n h e =
      let f = run-Honours (set_skipped_version fl (new_machine fl) v) es n (λ h. cc) h in
      ground (
        arith,
        str_eq_iff (run fl (set_skipped_version fl (new_machine fl) v) es).snapshot.version v,
      )
