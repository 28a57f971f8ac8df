-- ===== src/Updates/Machine.antt =====
-- The update state machine (roamux/browser/updates/update_state_machine.{h,cc}): `UpdateStatus`,
-- `UpdateEvent`, `UpdateSnapshot` and `UpdateStateMachine`. A method that changes the machine
-- returns the new one; the snapshot that `OnEvent` returns is the `snapshot` field.
-- `double` is a parameter with the three operations that the code applies to it.
pub mod Progress
pub mod Skipped
pub mod History
mod Examples
use roamux.Base.{
  ℕ, String, Bool, true, false, not, ◌&&◌, ◌||◌, ℤ, pos, ltb_ℤ, str_eq, is_empty, if◌then◌else◌,
  List, [], ◌∷◌,
}

pub data UpdateStatus : Type 0 where
  idle checking up_to_date available downloading ready_to_install error : UpdateStatus

pub data UpdateEventType : Type 0 where
  on_check_started on_up_to_date on_update_found on_download_started : UpdateEventType
  on_download_progress on_ready_to_install on_error : UpdateEventType

pub record UpdateEvent : Type 0 where
  pub type : UpdateEventType
  pub version : String
  pub date : String
  pub notes : String
  pub error_text : String
  pub received : ℤ
  pub total : ℤ

-- The floating-point operations of `kDownloadProgress`: the literals, the quotient of two
-- `int64_t` and the order.
pub record DoubleOps (D : Type 0) : Type 0 where
  pub zero_point : D
  pub one_point : D
  pub quotient : ℤ → ℤ → D
  pub less : D → D → Bool

pub record UpdateSnapshot (D : Type 0) : Type 0 where
  pub status : UpdateStatus
  pub version : String
  pub date : String
  pub notes : String
  pub error_text : String
  pub progress : D

pub record UpdateStateMachine (D : Type 0) : Type 0 where
  pub snapshot : UpdateSnapshot D
  pub skipped_version : String

abbrev is_checking : UpdateStatus → Bool
is_checking checking = true
is_checking _ = false

abbrev is_available : UpdateStatus → Bool
is_available available = true
is_available _ = false

abbrev is_downloading : UpdateStatus → Bool
is_downloading downloading = true
is_downloading _ = false

abbrev is_ready : UpdateStatus → Bool
is_ready ready_to_install = true
is_ready _ = false

module _ {D : Type 0} (fl : DoubleOps D) where
  -- `UpdateSnapshot{}`.
  pub fresh_snapshot : UpdateSnapshot D
  fresh_snapshot = record {
    status = idle;
    version = "";
    date = "";
    notes = "";
    error_text = "";
    progress = fl.zero_point;
  }

  pub new_machine : UpdateStateMachine D
  unfolding fresh_snapshot
  new_machine = record { snapshot = fresh_snapshot; skipped_version = "" }

  pub set_skipped_version : UpdateStateMachine D → String → UpdateStateMachine D
  set_skipped_version m v = record m { skipped_version = v }

  -- `p < 0.0 ? 0.0 : (p > 1.0 ? 1.0 : p)`.
  pub clamp_unit : D → D
  clamp_unit p =
      if fl.less p fl.zero_point
      then fl.zero_point
      else if fl.less fl.one_point p
      then fl.one_point
      else p

  -- The case `kUpdateFound`.
  pub update_found : String → UpdateSnapshot D → UpdateEvent → UpdateSnapshot D
  unfolding fresh_snapshot
  update_found skipped s e =
      if is_downloading s.status || is_ready s.status
      then s
      else if not (is_empty e.version) && str_eq e.version skipped
      then (if is_checking s.status then record s { status = up_to_date } else s)
      else record fresh_snapshot {
        status = available;
        version = e.version;
        date = e.date;
        notes = e.notes;
      }

  -- The `switch` of `OnEvent`.
  pub next_snapshot : UpdateEventType → String → UpdateSnapshot D → UpdateEvent → UpdateSnapshot D
  unfolding fresh_snapshot clamp_unit update_found
  next_snapshot on_check_started skipped s e = record fresh_snapshot { status = checking }
  next_snapshot on_up_to_date skipped s e =
      if is_checking s.status then record s { status = up_to_date } else s
  next_snapshot on_update_found skipped s e = update_found skipped s e
  next_snapshot on_download_started skipped s e =
      if is_available s.status
      then record s { status = downloading; progress = fl.zero_point }
      else s
  next_snapshot on_download_progress skipped s e =
      if is_downloading s.status && ltb_ℤ (pos 0) e.total
      then record s { progress = clamp_unit (fl.quotient e.received e.total) }
      else s
  next_snapshot on_ready_to_install skipped s e =
      if is_downloading s.status
      then record s { status = ready_to_install; progress = fl.one_point }
      else s
  next_snapshot on_error skipped s e = record s { status = error; error_text = e.error_text }

  pub on_event : UpdateStateMachine D → UpdateEvent → UpdateStateMachine D
  unfolding next_snapshot
  on_event m e = record m { snapshot = next_snapshot e.type m.skipped_version m.snapshot e }

  -- The events that the updater delivers, in order.
  pub run : UpdateStateMachine D → List UpdateEvent → UpdateStateMachine D
  run m [] = m
  run m (e ∷ es) = run (on_event m e) es
