-- ===== src/Ics/Builder/Tests.antt =====
-- Runs of event_builder.cpp on small inputs.
use divoom_dev.Prelude.{◌≡◌, refl}
use divoom_dev.Prelude.Int.{pos, ◌+ℤ◌, ◌*ℤ◌}
use divoom_dev.Prelude.Text.{codes}
use divoom_dev.Common.{EventStatus}
use divoom_dev.Ics.Builder.{status_of}
use divoom_dev.Ics.Builder.Alarms.{trigger_minutes}
use divoom_dev.Ics.TextUtils.{returns}

-- The spelling of RFC 5545 is not the one that is looked for.
status_runs :
    (status_of (codes "Canceled") ≡ EventStatus.canceled)
    × (status_of (codes "CANCELLED") ≡ EventStatus.confirmed)
unfolding status_of
status_runs = (refl, refl)

-- Weeks are read as minutes.
trigger_runs :
    (trigger_minutes (codes "-P1DT2H30M") ≡ returns (pos 1590))
    × (trigger_minutes (codes "-P1W") ≡ returns (pos 1))
unfolding trigger_minutes ◌+ℤ◌ ◌*ℤ◌
trigger_runs = (refl, refl)
