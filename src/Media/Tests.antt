-- ===== src/Media/Tests.antt =====
-- The media service at a concrete input.
use homeplate.Base.{refl, false}
use homeplate.Media.Service.{Storage, delete_for_user}
use homeplate.Media.Sweeping.{Sweeps, delete_for_user-Sweeps}
use homeplate.Privacy.Tests.{home}

-- No object can be deleted.
abbrev outage : Storage
outage key = false

delete_for_user-Sweeps_example : Sweeps outage 1 17 home (delete_for_user outage 1 home)
delete_for_user-Sweeps_example = delete_for_user-Sweeps outage 1 17 home (refl, tt)
