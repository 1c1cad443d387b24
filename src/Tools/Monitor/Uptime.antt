-- ===== src/Tools/Monitor/Uptime.antt =====
-- The uptime as the monitor prints it.
use libwlmio.Prelude.{
  ◌-◌, ◌/◌, ℕ, ◌+◌, ◌*◌, ◌<◌, ◌≡◌, ◌≢◌, refl, Option, some, arith, [], ◌∷◌, ◌++◌, ne→==,
}
use libwlmio.State.{Canard, Status, mode_offline}
use libwlmio.Requests.{RequestAnswers}
use libwlmio.Tools.Monitor.{
  Monitor, print, uptime_report, report, health_to_str, mode_to_str, status_callback,
}

-- A report with an uptime in days and the time of the day.
pub record Reported {Ins : Type 0} (node : ℕ) (status : Status) (before after : Monitor Ins)
    : Type 0 where
  pub days : ℕ
  pub hours : ℕ
  pub minutes : ℕ
  pub seconds : ℕ
  pub printed : after ≡ record before {
    printed =
        before.printed
        ++ (report node days hours minutes seconds
              (health_to_str status.health)
              (mode_to_str status.mode)
              status.vendor_status
            ∷ []);
  }
  pub exact : days * 86400 + hours * 3600 + minutes * 60 + seconds ≡ status.uptime
  pub hours_fit : hours < 24
  pub minutes_fit : minutes < 60
  pub seconds_fit : seconds < 60

-- The status of a node that was online and is online makes the monitor print one line and do
-- nothing else: the line gives the uptime exactly, in days, hours below 24, and minutes and seconds
-- below 60.
pub status_callback-Reported :
    {Ins : Type 0} (can : Canard Ins) (os : RequestAnswers) (memory : Option ℕ) (node : ℕ)
    (old_status new_status : Status) (m : Monitor Ins)
    → old_status.mode ≢ mode_offline
    → new_status.mode ≢ mode_offline
    → (after : Monitor Ins) × (status_callback can os memory node old_status new_status m
        ≡ some after)
      × Reported node new_status m after
unfolding status_callback print uptime_report
status_callback-Reported can os memory node old_status new_status m was is =
    let up = new_status.uptime in
    let days = up / (24 * 3600) in
    let hours = (up - days * 24 * 3600) / 3600 in
    let minutes = (up - days * 24 * 3600 - hours * 3600) / 60 in
    (
      record m { printed = m.printed ++ (uptime_report node new_status ∷ []) },
      rw (ne→== new_status.mode 7 is, ne→== old_status.mode 7 was),
      record {
        days = days;
        hours = hours;
        minutes = minutes;
        seconds = up - days * 24 * 3600 - hours * 3600 - minutes * 60;
        printed = refl;
        exact = omega arith;
        hours_fit = omega arith;
        minutes_fit = omega arith;
        seconds_fit = omega arith;
      },
    )
