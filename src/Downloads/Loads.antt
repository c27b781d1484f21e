-- ===== src/Downloads/Loads.antt =====
-- download_progress.rs: the loads that a daemon has in flight. A tracker is shared, so it is its place
-- in the list of the trackers that were made.
pub mod Own
use super_engine.Prelude.{
  ℕ, ◌≡◌, Bool, true, false, Option, none, some, List, [], ◌∷◌, ◌++◌, Text, text, Result, ok, err,
  Eq, ◌==◌, lookup, insert, remove, contains_key, get_elem?, set, if◌then◌else◌,
}
use super_engine.Downloads.{Floats, Tracker, Operation, operate, cancel_tracker}

pub record Slot (S K : Type 0) : Type 0 where
  pub key : S → K
  pub describe : K → Option Text

pub record DownloadStateManager (K S F : Type 0) : Type 0 where
  pub downloads : List (K × ℕ)
  pub trackers : List (Tracker S F)

-- The requests that reach the manager and the trackers.
pub data Call (K S F : Type 0) : Type 0 where
  create : Tracker S F → Call K S F
  start : (tracker : ℕ) → Call K S F
  progress : (tracker : ℕ) → Operation F → Call K S F
  abandon clear : K → Call K S F

abbrev pub describing : Option Text → Text
describing none = text ""
describing (some d) = text " for " ++ d

abbrev pub naming : {S K : Type 0} → Slot S K → K → Text
naming sl k = describing (sl.describe k)

module _ {K S F : Type 0} where
  abbrev pub empty : DownloadStateManager K S F
  empty = record { downloads = []; trackers = [] }

module _ {K S F : Type 0} ⦃same : Eq K⦄ where
  unfoldable pub start_download :
      Slot S K → DownloadStateManager K S F → ℕ → S → DownloadStateManager K S F × Result Unit Text
  start_download sl m i slot =
      if contains_key (sl.key slot) m.downloads
      then (m, err (text "A download is already in progress" ++ naming sl (sl.key slot)))
      else (record m { downloads = insert (sl.key slot) i m.downloads }, ok tt)

  unfoldable pub get_download : DownloadStateManager K S F → K → Option ℕ
  get_download m k = lookup k m.downloads

  abbrev pub cancel_at :
      DownloadStateManager K S F → ℕ → Option (Tracker S F) → DownloadStateManager K S F
  cancel_at m i none = m
  cancel_at m i (some t) = record m { trackers = set m.trackers i (cancel_tracker t) }

  abbrev pub cancel_found :
      Slot S K
      → DownloadStateManager K S F
      → K
      → Option ℕ
      → DownloadStateManager K S F × Result Unit Text
  cancel_found sl m k none = (m, err (text "No download in progress" ++ naming sl k))
  cancel_found sl m k (some i) = (cancel_at m i (get_elem? m.trackers i), ok tt)

  unfoldable pub cancel_download :
      Slot S K → DownloadStateManager K S F → K → DownloadStateManager K S F × Result Unit Text
  cancel_download sl m k = cancel_found sl m k (lookup k m.downloads)

  unfoldable pub clear_download : DownloadStateManager K S F → K → DownloadStateManager K S F
  clear_download m k = record m { downloads = remove k m.downloads }

  abbrev pub start_at :
      Slot S K → DownloadStateManager K S F → ℕ → Option (Tracker S F) → DownloadStateManager K S F
  start_at sl m i none = m
  start_at sl m i (some t) = (start_download sl m i t.slot).0

  abbrev pub progress_at :
      Floats F
      → Operation F
      → DownloadStateManager K S F
      → ℕ
      → Option (Tracker S F)
      → DownloadStateManager K S F
  progress_at f o m i none = m
  progress_at f o m i (some t) = record m { trackers = set m.trackers i (operate f o t) }

  unfoldable pub call :
      Floats F → Slot S K → Call K S F → DownloadStateManager K S F → DownloadStateManager K S F
  call f sl (create t) m = record m { trackers = m.trackers ++ t ∷ [] }
  call f sl (start i) m = start_at sl m i (get_elem? m.trackers i)
  call f sl (progress i o) m = progress_at f o m i (get_elem? m.trackers i)
  call f sl (abandon k) m = (cancel_download sl m k).0
  call f sl (clear k) m = clear_download m k

  unfoldable pub calls :
      Floats F
      → Slot S K
      → List (Call K S F)
      → DownloadStateManager K S F
      → DownloadStateManager K S F
  calls f sl [] m = m
  calls f sl (c ∷ cs) m = calls f sl cs (call f sl c m)
