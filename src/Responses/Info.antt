-- ===== src/Responses/Info.antt =====
-- The reply to a request for node information, up to the call of the caller's function.
use libwlmio.Prelude.{ℕ, List, ap, ◌∙◌, ◌≡◌, some, pos}
use libwlmio.Wire.{Dsdl}
use libwlmio.State.{World, Transfer, Task, update}
use libwlmio.NodeInfo.{NodeInfo, read_node_info}
use libwlmio.NodeInfo.RoundTrip.{
  Announced, IsAnnounced, reply_format, info_of, read_node_info-reply_format,
}
use libwlmio.Async.{Call, task_with_id, async_get_param}
use libwlmio.Async.Linked.{IsLinked}
use libwlmio.Async.Complete.{Appends, Ended, async_complete-Ended}
use libwlmio.Transport.{make_rsp_specifier}
use libwlmio.Responses.{get_node_info_response_handler, fill_info, store_info}

module _ {Ins : Type 0} where
  -- The caller's struct after the reply.
  abbrev pub informed : World Ins → ℕ → NodeInfo → World Ins
  informed w p info = record w { memory = record w.memory { infos = update w.memory.infos p info } }

  informed-IsLinked :
      (w : World Ins) (p : ℕ) (info : NodeInfo) → IsLinked w → IsLinked (informed w p info)
  informed-IsLinked w p info h = record {
    addresses = h.addresses;
    timers_apart = h.timers_apart;
    watched = h.watched;
  }

  module _ (d : Dsdl) (call : Call Ins) (w w' : World Ins) (tfr : Transfer) (c : Task) (p : ℕ) where
    info_param :
        task_with_id (make_rsp_specifier tfr) w.tasks ≡ some c
        → c.param ≡ some p
        → async_get_param (make_rsp_specifier tfr) w ≡ (pos 0, some p)
    unfolding async_get_param
    info_param e f = rw (e, f)

    -- A well-formed reply of a node that tells about itself ends the first task that waits under its
    -- specifier: first the caller's struct holds what the node announces, then the caller's function
    -- is called with 0 and, where it returns and only adds to the lists, the task is taken out of
    -- them.
    pub node_info_reply :
        (a : Announced) (pad : List ℕ)
        → IsLinked w
        → task_with_id (make_rsp_specifier tfr) w.tasks ≡ some c
        → c.param ≡ some p
        → IsAnnounced a
        → tfr.payload ≡ reply_format a pad
        → call c.callback (pos 0) c.uparam (informed w p (info_of a)) ≡ some w'
        → Appends (informed w p (info_of a)) w'
        → Ended (informed w p (info_of a)) w' c (get_node_info_response_handler d call tfr w)
    unfolding get_node_info_response_handler fill_info store_info
    node_info_reply a pad h e f announced sent called g =
        rw
          (
            info_param e f,
            ap (read_node_info d) sent ∙ read_node_info-reply_format d a announced pad,
          )
          (async_complete-Ended call (informed w p (info_of a)) w' c
            (informed-IsLinked w p (info_of a) h) (make_rsp_specifier tfr) (pos 0) e called g)
