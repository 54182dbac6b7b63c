-- ===== src/Export/Controller.antt =====
-- The stream controller of the exporter: Start, runStreamController and runArrowStream of
-- collector/gen/exporter/otlpexporter/internal/arrow/exporter.go, and downgrade of prioritizer.go.
use otel_arrow_adapter.Base.{
  ℕ, suc, ◌+◌, ◌-◌, ◌≤◌, ◌<◌, ◌≡◌, refl, Bool, true, false, ◌||◌, List, [], ◌∷◌, ◌++◌, arith, ◌==◌,
  if◌then◌else◌, length, length-append,
}

-- `running` is the controller's variable, `active` counts the goroutines of runArrowStream, and
-- `returning` is the channel of the streams that have ended: whether each has a client. `downgrades`
-- counts the closings of the ready channel, and `done` says that the controller has returned.
pub record Controller : Type 0 where
  pub num_streams : ℕ
  pub disable_downgrade : Bool
  pub running : ℕ
  pub active : ℕ
  pub returning : List Bool
  pub downgrades : ℕ
  pub done : Bool

-- NewExporter and Start, when the initial streams are started.
unfoldable pub start : ℕ → Bool → Controller
start n disable = record {
  num_streams = n;
  disable_downgrade = disable;
  running = n;
  active = n;
  returning = [];
  downgrades = 0;
  done = false;
}

-- A stream that the controller has taken from the channel: it is restarted, or it is given up. The
-- last one that is given up downgrades the exporter. Go's counter may fall below 0, where it stops
-- at 0 here.
unfoldable pub take_returned : Controller → Bool → List Bool → Controller
take_returned s has_client rest =
    if has_client || s.disable_downgrade
    then record s { returning = rest; active = suc s.active }
    else record s {
      returning = rest;
      running = s.running - 1;
      downgrades = if s.running - 1 == 0 then suc s.downgrades else s.downgrades;
    }

-- Streams end, the controller takes them, and it returns when the exporter shuts down.
pub data ControllerStep : Controller → Controller → Type 0 where
  stream_ends :
      (s : Controller) (has_client : Bool)
      → 0 < s.active
      → ControllerStep s
          (record s { active = s.active - 1; returning = s.returning ++ (has_client ∷ []) })
  take_stream :
      (s : Controller) (has_client : Bool) (rest : List Bool)
      → s.done ≡ false
      → s.returning ≡ has_client ∷ rest
      → ControllerStep s (take_returned s has_client rest)
  shut_down_controller : (s : Controller) → ControllerStep s (record s { done = true })

pub data ControllerReaches : Controller → Controller → Type 0 where
  at_start : {s : Controller} → ControllerReaches s s
  next_step :
      {s t u : Controller} → ControllerReaches s t → ControllerStep t u → ControllerReaches s u

-- Every running stream is active or has ended, and the exporter is downgraded when none is left.
pub record IsCounted (n : ℕ) (disable : Bool) (s : Controller) : Type 0 where
  pub counted : s.running ≡ s.active + length s.returning
  pub at_most : s.running ≤ n
  pub same_setting : s.disable_downgrade ≡ disable
  pub downgraded : 0 < s.downgrades → (s.running ≡ 0) × (s.downgrades ≡ 1)
  pub disabled : s.disable_downgrade ≡ true → s.downgrades ≡ 0

ControllerStep-IsCounted :
    {s t : Controller} (n : ℕ) (disable : Bool)
    → ControllerStep s t
    → IsCounted n disable s
    → IsCounted n disable t
unfolding take_returned
ControllerStep-IsCounted n disable (stream_ends s c some_active) v = record {
  counted = omega (arith, v.counted, length-append s.returning (c ∷ []));
  at_most = v.at_most;
  same_setting = v.same_setting;
  downgraded = v.downgraded;
  disabled = v.disabled;
}
ControllerStep-IsCounted n disable (take_stream s c rest up taken) v = record {
  counted = ground (arith, v.counted, taken);
  at_most = ground (arith, v.at_most);
  same_setting = ground (arith, v.same_setting);
  downgraded = ground (arith, v.downgraded, v.counted, taken);
  disabled = ground (arith, v.disabled);
}
ControllerStep-IsCounted n disable (shut_down_controller s) v = record {
  counted = v.counted;
  at_most = v.at_most;
  same_setting = v.same_setting;
  downgraded = v.downgraded;
  disabled = v.disabled;
}

ControllerReaches-IsCounted :
    {s t : Controller} (n : ℕ) (disable : Bool)
    → ControllerReaches s t
    → IsCounted n disable s
    → IsCounted n disable t
ControllerReaches-IsCounted n disable at_start v = v
ControllerReaches-IsCounted n disable (next_step r st) v =
    ControllerStep-IsCounted n disable st (ControllerReaches-IsCounted n disable r v)

start-IsCounted : (n : ℕ) (disable : Bool) → IsCounted n disable (start n disable)
unfolding start
start-IsCounted n disable = record {
  counted = omega arith;
  at_most = omega arith;
  same_setting = refl;
  downgraded = λ h. ground arith;
  disabled = λ h. refl;
}

-- In every state that the controller can reach, the streams that have ended fit into the channel
-- `returning`, so that no stream blocks on it.
pub returning_fits :
    (n : ℕ) (disable : Bool) (t : Controller)
    → ControllerReaches (start n disable) t
    → length t.returning ≤ n
returning_fits n disable t r =
    let v = ControllerReaches-IsCounted n disable r (start-IsCounted n disable) in
    omega (arith, v.counted, v.at_most)

-- When the ready channel was closed, downgrading was not disabled, it was closed once, and no stream
-- runs that could still use it.
pub downgraded-no_streams :
    (n : ℕ) (disable : Bool) (t : Controller)
    → ControllerReaches (start n disable) t
    → 0 < t.downgrades
    → (disable ≡ false) × (t.downgrades ≡ 1) × (t.active ≡ 0)
downgraded-no_streams n disable t r closed =
    let v = ControllerReaches-IsCounted n disable r (start-IsCounted n disable) in
    let d = v.downgraded closed in
    (ground (arith, v.same_setting, v.disabled, closed), d.1, omega (arith, d.0, v.counted))
