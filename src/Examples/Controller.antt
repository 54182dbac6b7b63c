-- ===== src/Examples/Controller.antt =====
-- The stream controller of the exporter at a concrete number of streams.
use otel_arrow_adapter.Base.{◌≤◌, ◌≡◌, refl, false, [], ◌∷◌, arith, length}
use otel_arrow_adapter.Export.Controller.{
  Controller, start, take_returned, stream_ends, take_stream, ControllerReaches, at_start,
  next_step, returning_fits, downgraded-no_streams,
}

-- Two streams end without a client, and the exporter is downgraded.
abbrev downgraded : Controller
downgraded = record {
  num_streams = 2;
  disable_downgrade = false;
  running = 0;
  active = 0;
  returning = [];
  downgrades = 1;
  done = false;
}

downgrades : ControllerReaches (start 2 false) downgraded
unfolding start take_returned
downgrades =
    next_step
      (next_step
        (next_step (next_step at_start (stream_ends _ false (omega arith)))
          (stream_ends _ false (omega arith)))
        (take_stream _ false (false ∷ []) refl refl))
      (take_stream _ false [] refl refl)

returning_fits_example : length (downgraded.returning) ≤ 2
returning_fits_example = returning_fits 2 false downgraded downgrades

downgraded-no_streams_example :
    (false ≡ false) × (downgraded.downgrades ≡ 1) × (downgraded.active ≡ 0)
downgraded-no_streams_example = downgraded-no_streams 2 false downgraded downgrades (omega arith)
