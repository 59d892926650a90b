-- ===== src/Examples/Texts.antt =====
-- mysql/src/value/encode.rs: values in the text protocol.
use opensrv.Common.{true}
use opensrv.Encode.Temporal.{Temporal, Kind}
use opensrv.Encode.Text.{temporal_text}
use opensrv.Encode.Text.Shown.{Shown, meaning, temporal_text-Shown}

-- Two days and four hours before zero.
abbrev before_zero : Temporal
before_zero = Temporal.time true 2 4 0 9 50

temporal_text-Shown_example :
    Shown (meaning before_zero Kind.clock_kind) (temporal_text before_zero Kind.clock_kind)
temporal_text-Shown_example = temporal_text-Shown before_zero Kind.clock_kind tt
