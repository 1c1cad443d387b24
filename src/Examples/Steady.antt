-- ===== src/Examples/Steady.antt =====
-- A synchronous request for node information that times out.
use libwlmio.Prelude.{
  ℤ, ◌≡◌, refl, sym, ◌∙◌, ap, subst, List, [], ◌∷◌, Option, none, some, pos, eq_of_some,
}
use libwlmio.State.{World, Frame, Callback}
use libwlmio.Fds.{entry_at, fd_entry_find}
use libwlmio.Heartbeat.{StatusCall}
use libwlmio.Requests.{tfr_tx, advance, wlmio_get_node_info}
use libwlmio.Requests.Start.{Ready, started, begin-started, started_fds}
use libwlmio.Events.{Event}
use libwlmio.Init.Starts.{socket-IsSound}
use libwlmio.System.{IsLive}
use libwlmio.System.Tasks.{Behaves, Notices}
use libwlmio.System.Requests.{IsFresh, same-Extends}
use libwlmio.System.Events.{IsDue}
use libwlmio.Async.{task_at}
use libwlmio.Sync.{Round, library_call, wlmio_get_node_info_sync}
use libwlmio.Sync.Steady.{IsPlain, DueRounds, inquire, wlmio_get_node_info_sync-Settles}
use libwlmio.Examples.Setup.{plain, frames, quiet, initialised, answers, socket_entry}
use libwlmio.Examples.Tasks.{timer_entry}

abbrev unmoved : StatusCall (List Frame)
unmoved f node old new w = some w

quiet-Behaves : Behaves IsPlain quiet
quiet-Behaves callback r uparam w safe h = (w, refl, same-Extends IsPlain w w refl refl h)

unmoved-Notices : Notices IsPlain unmoved
unmoved-Notices f node old new w h = (w, refl, h)

initialised-IsLive : IsLive IsPlain initialised
initialised-IsLive =
    socket-IsSound IsPlain (some 4) initialised.nodes initialised.timers socket_entry [] (4, refl)
      (λ n. (refl, refl)) refl refl

answers-IsFresh : IsFresh answers.async initialised
unfolding task_at entry_at
answers-IsFresh = record {
  task_new = λ a e. refl;
  entry = 101;
  entry_given = refl;
  entry_new = refl;
}

prepared : Ready answers initialised
unfolding task_at entry_at
prepared = record {
  epoll = 4;
  task = 200;
  timer = 6;
  entry = 101;
  initialised = refl;
  payload_given = refl;
  task_given = refl;
  timer_given = refl;
  timer_set = refl;
  entry_given = refl;
  task_new = refl;
  entry_new = refl;
}

-- The world once the request was sent.
abbrev asking : World (List Frame)
asking =
    started frames answers initialised prepared (tfr_tx 430 42 0 [])
      (record initialised.tfr_ids { node_info = advance initialised.tfr_ids.node_info 42 })
      (some 500) Callback.sync_callback none

asked :
    inquire frames plain quiet quiet-Behaves unmoved unmoved-Notices answers 42
      (some 500)
      initialised
    ≡ some (pos 0, asking)
unfolding wlmio_get_node_info
asked =
    begin-started frames answers initialised prepared (tfr_tx 430 42 0 [])
      (record initialised.tfr_ids { node_info = advance initialised.tfr_ids.node_info 42 })
      (some 500) Callback.sync_callback none

abbrev expiry : Event
expiry = record {
  entry = 101;
  frame = none;
  os = record { timer = some 9; entry_memory = some 300 };
}

listed : asking.fds ≡ socket_entry ∷ timer_entry ∷ []
unfolding prepared
listed =
    started_fds frames answers initialised prepared (tfr_tx 430 42 0 [])
      (record initialised.tfr_ids { node_info = advance initialised.tfr_ids.node_info 42 })
      (some 500) Callback.sync_callback none

expiry-IsDue : IsDue frames expiry asking
unfolding entry_at fd_entry_find
expiry-IsDue = record {
  entry = timer_entry;
  listed = ap (entry_at 101) listed;
  ready = record {
    fd = 9;
    address = 300;
    timer_given = refl;
    entry_given = refl;
    fd_new = ap (fd_entry_find (some 9)) listed;
    address_new = ap (entry_at 300) listed;
  };
  transfers = λ frame i tfr read e. absurd (cc read);
}

abbrev rounds : List Round
rounds = record { room = 8; events = expiry ∷ [] } ∷ []

rounds_due :
    (r : ℤ) (w' : World (List Frame))
    → inquire frames plain quiet quiet-Behaves unmoved unmoved-Notices answers 42
        (some 500)
        initialised
      ≡ some (r, w')
    → DueRounds frames plain quiet quiet-Behaves unmoved unmoved-Notices rounds w'
rounds_due r w' e =
    subst
      (λ (x : ℤ × World (List Frame)).
        DueRounds frames plain quiet quiet-Behaves unmoved unmoved-Notices rounds x.1)
      (eq_of_some (sym asked ∙ e)) ((expiry-IsDue, λ v q. tt), λ v q. tt)

wlmio_get_node_info_sync-Settles_example :
    (last : Option ℤ) × (after : World (List Frame)) × (wlmio_get_node_info_sync frames plain
        (library_call quiet)
        unmoved
        answers
        42
        (some 500)
        rounds
        initialised
      ≡ some (last, after))
    × IsLive IsPlain after
wlmio_get_node_info_sync-Settles_example =
    wlmio_get_node_info_sync-Settles frames plain quiet quiet-Behaves unmoved unmoved-Notices
      answers 42 (some 500) rounds initialised initialised-IsLive answers-IsFresh rounds_due
