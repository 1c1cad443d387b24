-- ===== src/Examples/Inquiries.antt =====
-- Two requests for node information, one after the other.
use libwlmio.Prelude.{◌%◌, ◌≡◌, ◌↔◌, refl, List, some, none, arith}
use libwlmio.State.{World, Frame, application}
use libwlmio.Fds.{entry_at}
use libwlmio.Async.{task_at}
use libwlmio.Async.Add.{with_task}
use libwlmio.Transport.{uavcan_send}
use libwlmio.Requests.{RequestAnswers}
use libwlmio.Requests.Start.{started}
use libwlmio.Requests.Sequence.{
  Inquiry, Waits, asked, inquire-asked, inquiry_task, starts, inquires, wlmio_get_node_info-repeats,
}
use libwlmio.Examples.Setup.{frames, initialised, answers}
use libwlmio.Examples.Tasks.{ready}

-- Node 42 is asked at the start, and again once it was asked.
abbrev first : Inquiry initialised
first = record {
  os = answers;
  ready = ready;
  node_info = 500;
  callback = application 1;
  uparam = none;
}

abbrev later : World (List Frame)
later = asked frames 42 (omega arith) initialised first

abbrev second_answers : RequestAnswers
second_answers = record answers {
  async = record answers.async { task_memory = some 201; timer = some 7; entry_memory = some 102 };
}

second : Inquiry later
unfolding ready task_at entry_at started uavcan_send with_task
second = record {
  os = second_answers;
  ready = record {
    epoll = 4;
    task = 201;
    timer = 7;
    entry = 102;
    initialised = refl;
    payload_given = refl;
    task_given = refl;
    timer_given = refl;
    timer_set = refl;
    entry_given = refl;
    task_new = refl;
    entry_new = refl;
  };
  node_info = 500;
  callback = application 1;
  uparam = none;
}

wlmio_get_node_info-repeats_example :
    Waits frames 42 (omega arith) initialised first
    × Waits frames 42 (omega arith) later second
    × (((inquiry_task frames 42 (omega arith) initialised first).id
          ≡ (inquiry_task frames 42 (omega arith) later second).id)
        ↔ (0 % 32 ≡ 1 % 32))
wlmio_get_node_info-repeats_example =
    wlmio_get_node_info-repeats frames 42 (omega arith) 0 1 initialised initialised later first
      second (omega arith) starts
      (inquires starts first (inquire-asked frames 42 (omega arith) initialised first))
