-- ===== src/Downloads.antt =====
-- super-engine-daemon/src/download_progress.rs: what a model load reports, and the loads in flight;
-- LoadProgress of super-engine-protocol/src/models/load_progress.rs. The arithmetic of floats is a
-- parameter. A tracker is changed by one operation at a time.
pub mod Shown
pub mod Throttle
pub mod Loads
use super_engine.Prelude.{
  ℕ, ◌+◌, ◌*◌, ◌-◌, ◌/◌, ◌^◌, ◌≡◌, max, Bool, true, false, not, ◌&&◌, ◌||◌, Option, none, some,
  List, [], ◌∷◌, ◌==◌, nat_eq, bytes_eq, option_eq_of, if◌then◌else◌, Text, text, leb, ltb,
}

-- The operations of `f32` and `f64` that the tracker uses.
pub record Floats (F : Type 0) : Type 0 where
  pub from_u64 : ℕ → F
  pub as_u64 : F → ℕ
  pub div : F → F → F
  pub mul : F → F → F
  pub sub : F → F → F
  pub abs : F → F
  pub min : F → F → F
  pub clamp : F → F → F → F
  pub round : F → F
  pub as_f32 : F → F
  pub at_least : F → F → Bool
  -- `0.0`, `0.01` and `100.0`
  pub zero : F
  pub hundredth : F
  pub hundred : F

abbrev pub verifying : Text
verifying = text "verifying"

abbrev pub downloading : Text
downloading = text "downloading"

abbrev pub loading_model : Text
loading_model = text "loading_model"

abbrev pub completed : Text
completed = text "completed"

abbrev pub cancelled : Text
cancelled = text "cancelled"

abbrev pub error : Text
error = text "error"

pub record LoadProgress (F : Type 0) : Type 0 where
  pub phase : Option Text
  pub step : Option Text
  pub progress : Option F

pub record Progress (S F : Type 0) : Type 0 where
  pub model_name : Text
  pub slot : S
  pub current_file : Text
  pub file_index : ℕ
  pub total_files : ℕ
  pub bytes_downloaded : ℕ
  pub total_bytes : ℕ
  pub percentage : F
  pub status : Text
  pub started_at : Text
  pub eta_seconds : Option ℕ
  pub error : Option Text
  pub load : Option (LoadProgress F)

-- `published` has the events on the bus, the newest first.
pub record Tracker (S F : Type 0) : Type 0 where
  pub model_name : Text
  pub slot : S
  pub current_file : Text
  pub file_index : ℕ
  pub total_files : ℕ
  pub bytes_downloaded : ℕ
  pub total_bytes : ℕ
  pub status : Text
  pub error : Option Text
  pub load : Option (LoadProgress F)
  pub started_at_str : Text
  pub cancelled : Bool
  pub published : List (Progress S F)
  pub last_broadcast_percentage : ℕ
  pub last_broadcast_status : Text
  pub last_broadcast_total_bytes : ℕ
  pub last_broadcast_file_index : ℕ
  pub last_broadcast_load : Option (LoadProgress F)

abbrev pub text_beq : Option Text → Option Text → Bool
text_beq = (option_eq_of bytes_eq).beq

abbrev checked_div : ℕ → ℕ → Option ℕ
checked_div a b = if b == 0 then none else some (a / b)

abbrev pub eta_seconds : ℕ → ℕ → ℕ → Option ℕ
eta_seconds bytes total elapsed =
    if ltb 0 bytes && ltb bytes total
    then checked_div (total - bytes) (bytes / max elapsed 1)
    else none

-- The operations of a load: those of the tracker, and the stores of its counters.
pub data Operation (F : Type 0) : Type 0 where
  start_file : (filename : Text) (file_index : ℕ) → Operation F
  cancel mark_verifying mark_downloading mark_loading mark_completed : Operation F
  mark_error : Text → Operation F
  set_load_progress : LoadProgress F → Operation F
  store_bytes store_total : ℕ → Operation F
  broadcast : (elapsed : ℕ) → Operation F

module _ {F : Type 0} where
  unfoldable pub percent_of : Floats F → ℕ → ℕ → F
  percent_of f part whole =
      f.as_f32 (f.min (f.mul (f.div (f.from_u64 part) (f.from_u64 whole)) f.hundred) f.hundred)

  unfoldable pub fixed_point : Floats F → F → ℕ
  fixed_point f percentage =
      f.as_u64 (f.round (f.mul (f.clamp percentage f.zero f.hundred) f.hundred))

  abbrev pub progress_moved : Floats F → Option F → Option F → Bool
  progress_moved f (some a) (some b) = f.at_least (f.abs (f.sub a b)) f.hundredth
  progress_moved f none none = false
  progress_moved f _ _ = true

  abbrev pub load_moved : Floats F → Option (LoadProgress F) → Option (LoadProgress F) → Bool
  load_moved f none none = false
  load_moved f (some last) (some now) =
      not (text_beq last.phase now.phase)
      || (not (text_beq last.step now.step) || progress_moved f last.progress now.progress)
  load_moved f _ _ = true

module _ {S F : Type 0} where
  abbrev pub new : Text → S → ℕ → Bool → Text → Tracker S F
  new model_name slot total_files is_cancelled now = record {
    model_name = model_name;
    slot = slot;
    current_file = text "";
    file_index = 0;
    total_files = total_files;
    bytes_downloaded = 0;
    total_bytes = 0;
    status = verifying;
    error = none;
    load = none;
    started_at_str = now;
    cancelled = is_cancelled;
    published = [];
    last_broadcast_percentage = 0;
    last_broadcast_status = text "";
    last_broadcast_total_bytes = 0;
    last_broadcast_file_index = 2 ^ 64 - 1;
    last_broadcast_load = none;
  }

  abbrev pub percentage : Floats F → Tracker S F → F
  percentage f t =
      if t.status == completed || t.status == loading_model
      then f.hundred
      else if ltb 0 t.total_bytes
      then percent_of f t.bytes_downloaded t.total_bytes
      else f.zero

  abbrev pub get_progress : Floats F → Tracker S F → ℕ → Progress S F
  get_progress f t elapsed = record {
    model_name = t.model_name;
    slot = t.slot;
    current_file = t.current_file;
    file_index = t.file_index;
    total_files = t.total_files;
    bytes_downloaded = t.bytes_downloaded;
    total_bytes = t.total_bytes;
    percentage = percentage f t;
    status = t.status;
    started_at = t.started_at_str;
    eta_seconds = eta_seconds t.bytes_downloaded t.total_bytes elapsed;
    error = t.error;
    load = t.load;
  }

  abbrev pub is_due : Floats F → Tracker S F → Bool
  is_due f t =
      let current = fixed_point f (percentage f t) in
      not (t.last_broadcast_status == t.status)
      || ((ltb t.last_broadcast_percentage current
            && leb 100 (current - t.last_broadcast_percentage))
          || (not (t.last_broadcast_total_bytes == t.total_bytes)
              || (not (t.last_broadcast_file_index == t.file_index)
                  || load_moved f t.last_broadcast_load t.load)))

  abbrev pub broadcasted : Floats F → Tracker S F → ℕ → Tracker S F
  broadcasted f t elapsed = record t {
    published = get_progress f t elapsed ∷ t.published;
    last_broadcast_percentage = fixed_point f (percentage f t);
    last_broadcast_status = t.status;
    last_broadcast_total_bytes = t.total_bytes;
    last_broadcast_file_index = t.file_index;
    last_broadcast_load = t.load;
  }

  unfoldable pub broadcast_progress : Floats F → Tracker S F → ℕ → Tracker S F
  broadcast_progress f t elapsed = if is_due f t then broadcasted f t elapsed else t

  abbrev pub cancel_tracker : Tracker S F → Tracker S F
  cancel_tracker t = record t { cancelled = true; status = cancelled }

  unfoldable pub operate : Floats F → Operation F → Tracker S F → Tracker S F
  operate f (start_file name i) t = record t {
    current_file = name;
    file_index = i;
    bytes_downloaded = 0;
    total_bytes = 0;
  }
  operate f cancel t = cancel_tracker t
  operate f mark_verifying t = record t { status = verifying }
  operate f mark_downloading t = record t { status = downloading }
  operate f mark_loading t = record t { status = loading_model }
  operate f mark_completed t = record t { status = completed }
  operate f (mark_error e) t = record t { status = error; error = some e }
  operate f (set_load_progress l) t = record t { load = some l }
  operate f (store_bytes n) t = record t { bytes_downloaded = n }
  operate f (store_total n) t = record t { total_bytes = n }
  operate f (broadcast elapsed) t = broadcast_progress f t elapsed

  unfoldable pub run : Floats F → List (Operation F) → Tracker S F → Tracker S F
  run f [] t = t
  run f (o ∷ os) t = run f os (operate f o t)
