-- ===== src/Tools/Monitor.antt =====
-- The monitor, src/tools/monitor.c: what it prints as nodes come, report and go.
pub mod Uptime
use libwlmio.Prelude.{
  ℕ, ℤ, ◌-◌, ◌*◌, ◌/◌, ◌==◌, is_neg, List, [], ◌∷◌, ◌++◌, Option, none, some, ◌>>=◌, if◌then◌else◌,
}
use libwlmio.State.{World, Canard, Status, Callback, application, mode_offline, update}
use libwlmio.Requests.{RequestAnswers, wlmio_get_node_info}

-- The words that stand for health and mode.
pub data Word : Type 0 where
  nominal advisory caution warning : Word
  operational initialization maintenance software_update offline_mode : Word
  unknown : Word

unfoldable pub health_to_str : ℕ → Word
health_to_str health =
    if health == 0
    then nominal
    else if health == 1
    then advisory
    else if health == 2
    then caution
    else if health == 3
    then warning
    else unknown

unfoldable pub mode_to_str : ℕ → Word
mode_to_str mode =
    if mode == 0
    then operational
    else if mode == 1
    then initialization
    else if mode == 2
    then maintenance
    else if mode == 3
    then software_update
    else if mode == 7
    then offline_mode
    else unknown

-- A line that is printed.
pub data Line : Type 0 where
  gone_offline come_online info_failed : ℕ → Line
  is_a : ℕ → List ℕ → Line
  report : (node days hours minutes seconds : ℕ) → Word → Word → ℕ → Line

-- The library, the nodes in the allocated `struct infop` by their addresses, and the lines so far.
-- The `info` of such a struct is the object of the library's callers at the same address.
pub record Monitor (Ins : Type 0) : Type 0 where
  pub world : World Ins
  pub infops : ℕ → Option ℕ
  pub printed : List Line

-- The number that stands for `info_callback` among the application's functions.
abbrev pub info_callback_id : ℕ
info_callback_id = 1

unfoldable pub uptime_report : ℕ → Status → Line
uptime_report node_id status =
    let uptime = status.uptime in
    let days = uptime / (24 * 3600) in
    let hours = (uptime - days * 24 * 3600) / 3600 in
    let minutes = (uptime - days * 24 * 3600 - hours * 3600) / 60 in
    let seconds = uptime - days * 24 * 3600 - hours * 3600 - minutes * 60 in
    report node_id days hours minutes seconds (health_to_str status.health)
      (mode_to_str status.mode) status.vendor_status

module _ {Ins : Type 0} where
  print : Line → Monitor Ins → Monitor Ins
  print line m = record m { printed = m.printed ++ (line ∷ []) }

  -- A struct that is not there, or was freed, is a fault.
  unfoldable pub info_callback : ℤ → Option ℕ → Monitor Ins → Option (Monitor Ins)
  unfolding print
  info_callback r none m = none
  info_callback r (some t) m = do
    node_id ← m.infops t
    let line = if is_neg r then info_failed node_id else is_a node_id (m.world.memory.infos t).name
    some (record (print line m) { infops = update m.infops t none })

  -- `memory` is what malloc gives, and is used unchecked.
  ask : Canard Ins → RequestAnswers → Option ℕ → ℕ → Monitor Ins → Option (Monitor Ins)
  ask can os memory node_id m = do
    t ← memory
    let infops = update m.infops t (some node_id)
    (r, world) ←
        wlmio_get_node_info can os node_id (some t) (some (application info_callback_id)) (some t)
          m.world
    some (record m { world = world; infops = infops })

  unfoldable pub status_callback :
      Canard Ins
      → RequestAnswers
      → Option ℕ
      → ℕ
      → Status
      → Status
      → Monitor Ins
      → Option (Monitor Ins)
  unfolding print uptime_report ask
  status_callback can os memory node_id old_status new_status m =
      let asked = ask can os memory node_id (print (come_online node_id) m) in
      if new_status.mode == mode_offline
      then some (print (gone_offline node_id) m)
      else if old_status.mode == mode_offline
      then asked
      else some (print (uptime_report node_id new_status) m)
