-- ===== src/Examples/Modules.antt =====
-- The I/O modules: a configuration, a sample interval, a reading and an output.
use libwlmio.Prelude.{
  ◌≡◌, refl, List, [], ◌∷◌, none, some, pos, neg_eproto, neg_etimedout, neg_ebade, arith, ◌>>=◌,
  ◌++◌,
}
use libwlmio.Wire.{le_bytes, zeros, length-zeros}
use libwlmio.State.{World, Frame, Task, Callback, ConfigureContext, ReadContext, application}
use libwlmio.Register.Kind
use libwlmio.Register.Widths.{uint16_widths}
use libwlmio.Register.Response.RoundTrip.{received}
use libwlmio.Fds.{entry_at}
use libwlmio.Async.{task_with_id}
use libwlmio.Async.Linked.{IsLinked}
use libwlmio.Async.Complete.{Appends, Ended}
use libwlmio.Transport.{make_rsp_specifier}
use libwlmio.Responses.{register_access_response_handler}
use libwlmio.Responses.Access.{stored}
use libwlmio.Io.{put_configure, put_interval, put_read, scalar, IoAnswers}
use libwlmio.Io.Write.{wlmio_vpe6050_write}
use libwlmio.Io.Write.Output.{output_rest, wlmio_vpe6050_write-Asks}
use libwlmio.Register.Request.Format.{request_head}
use libwlmio.Requests.Access.{Asks}
use libwlmio.Io.Read.{number_at}
use libwlmio.Io.Settings.{
  vpe6060_configure_callback, node_set_sample_interval_callback, wlmio_node_set_sample_interval,
  counted,
}
use libwlmio.Io.Settings.Counting.{fresh, first_failure, vpe6060_configure_callback-three}
use libwlmio.Io.Settings.Interval.{requested, wlmio_node_set_sample_interval-confirmed}
use libwlmio.Io.Dispatch.{io_call}
use libwlmio.Io.Dispatch.Reply.{with_half, vpe6040_read-reply}
use libwlmio.Examples.Setup.{plain, quiet, initialised, socket_entry, answers, frames}
use libwlmio.Examples.Registers.{pair, pair-IsReg, pair-valid, zeros-IsBytes}
use libwlmio.Examples.Tasks.{answered, task, timer_entry, ready, initialised-IsLinked}

-- The context at 500 is `t`.
abbrev configuring : ConfigureContext → World (List Frame)
configuring t = record initialised {
  memory = record initialised.memory { configures = λ p. some t };
}

abbrev unasked : ConfigureContext
unasked = fresh (application 1) none

abbrev one_reply : ConfigureContext
one_reply = counted (pos 0) unasked

abbrev two_replies : ConfigureContext
two_replies = counted neg_eproto one_reply

abbrev three_replies : ConfigureContext
three_replies = counted neg_etimedout two_replies

-- The second of three replies is an error, and the third times out.
vpe6060_configure_callback-three_example :
    (vpe6060_configure_callback quiet (pos 0) 500 (configuring unasked)
      ≡ some (put_configure 500 (some one_reply) (configuring unasked)))
    × (vpe6060_configure_callback quiet neg_eproto 500 (configuring one_reply)
        ≡ some (put_configure 500 (some two_replies) (configuring one_reply)))
    × (vpe6060_configure_callback quiet neg_etimedout 500 (configuring two_replies) ≡ (
        quiet
          (application 1)
          (first_failure (pos 0 ∷ neg_eproto ∷ neg_etimedout ∷ []))
          none
          (put_configure 500 (some three_replies) (configuring two_replies))
        >>= λ w. some (put_configure 500 none w)))
vpe6060_configure_callback-three_example =
    vpe6060_configure_callback-three quiet (pos 0) neg_eproto neg_etimedout (application 1) none 500
      (configuring unasked) (configuring one_reply) (configuring two_replies) refl refl refl

-- A read of a 6040 for the number at 600 waits.
abbrev reading : Task
reading = record task { callback = Callback.vpe6040_read_callback; uparam = some 500 }

abbrev context : ReadContext
context = record { input = some 600; callback = some (application 1); uparam = none }

abbrev measuring : World (List Frame)
measuring = record initialised {
  tasks = reading ∷ [];
  fds = socket_entry ∷ timer_entry ∷ [];
  memory = record initialised.memory { reads = λ p. some context };
}

measuring-IsLinked : IsLinked measuring
unfolding entry_at
measuring-IsLinked = record {
  addresses = (tt, tt);
  timers_apart = (tt, tt);
  watched = ((timer_entry, refl, refl), tt);
}

reading_waits : task_with_id (make_rsp_specifier answered) measuring.tasks ≡ some reading
unfolding task_with_id make_rsp_specifier
reading_waits = refl

abbrev replied : World (List Frame)
replied = stored measuring 500 (received pair uint16_widths)

abbrev measured : World (List Frame)
measured = with_half replied 600 (number_at (received pair uint16_widths).value 0 2)

measured-Appends : Appends replied (put_read 500 none measured)
unfolding put_read
measured-Appends = record {
  tasks = [];
  fds = [];
  tasks_after = refl;
  fds_after = refl;
  linked = record {
    addresses = measuring-IsLinked.addresses;
    timers_apart = measuring-IsLinked.timers_apart;
    watched = measuring-IsLinked.watched;
  };
}

vpe6040_read-reply_example :
    Ended replied
      (put_read 500 none measured)
      reading
      (register_access_response_handler plain (io_call quiet) answered measuring)
vpe6040_read-reply_example =
    vpe6040_read-reply plain quiet measuring measured answered reading 500 600 (application 1) none
      pair uint16_widths measuring-IsLinked reading_waits refl refl refl refl pair-IsReg pair-valid
      refl (omega arith) refl refl measured-Appends

-- An interval of 1000 for node 42, in a context whose memory held 7.
abbrev interval_answers : IoAnswers
interval_answers = record {
  context_memory = some 500;
  unset_interval = 7;
  stack = zeros 256;
  requests = λ i. answers;
}

abbrev interval_asked : World (List Frame)
interval_asked =
    requested frames interval_answers 42 (omega arith) 1000 500 (application 1) none initialised
      ready initialised-IsLinked

-- The node confirms 1000.
abbrev confirming : World (List Frame)
confirming = record interval_asked {
  memory = record interval_asked.memory {
    regs = λ p. scalar (zeros 256) Kind.uint16 (le_bytes 2 1000);
  };
}

wlmio_node_set_sample_interval-confirmed_example :
    (wlmio_node_set_sample_interval frames interval_answers 42 1000
        (some (application 1))
        none
        initialised
      ≡ some (pos 0, interval_asked))
    × (node_set_sample_interval_callback quiet (pos 0) 500 confirming
        ≡ (quiet (application 1) neg_ebade none confirming >>= λ w. some (put_interval 500 none w)))
wlmio_node_set_sample_interval-confirmed_example =
    wlmio_node_set_sample_interval-confirmed frames interval_answers 42 (omega arith) 1000 500
      (application 1) none initialised ready initialised-IsLinked quiet confirming (zeros 256) refl
      (length-zeros 256) (zeros-IsBytes 256) (omega arith) refl refl

-- The number 515 for the second output of a 6050 on node 42.
abbrev module_answers : IoAnswers
module_answers = record {
  context_memory = none;
  unset_interval = 0;
  stack = zeros 256;
  requests = λ i. answers;
}

wlmio_vpe6050_write-Asks_example :
    Asks frames answers initialised ready initialised-IsLinked 42
      (omega arith)
      b'c'
      (output_rest 1)
      (application 1)
      none
      (request_head (b'c' ∷ output_rest 1) Kind.uint16 ++ (1 ∷ le_bytes 2 515))
      none
      (wlmio_vpe6050_write frames module_answers 42 1 515 (some (application 1)) none initialised)
wlmio_vpe6050_write-Asks_example =
    wlmio_vpe6050_write-Asks frames module_answers initialised ready initialised-IsLinked 42 1 515
      (omega arith) (application 1) none (omega arith) (length-zeros 256) (zeros-IsBytes 256)
