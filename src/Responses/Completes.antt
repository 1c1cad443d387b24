-- ===== src/Responses/Completes.antt =====
-- How each handler of a reply comes to complete its identifier.
use libwlmio.Prelude.{ℕ, ℤ, pos, ◌≡◌, List, none, some, neg_enoent}
use libwlmio.Wire.{Dsdl}
use libwlmio.State.{World, Transfer, Task, update}
use libwlmio.Register.{Reg}
use libwlmio.Register.Response.{read_response}
use libwlmio.NodeInfo.{NodeInfo, read_node_info}
use libwlmio.Async.{Call, task_with_id, async_complete, async_get_param}
use libwlmio.Transport.{make_rsp_specifier}
use libwlmio.Responses.{
  get_node_info_response_handler, register_list_response_handler, register_access_response_handler,
  fill_info, fill_name, fill_reg, store_info, store_name, store_reg, read_listed_name,
}
use libwlmio.Responses.Access.{stored}
use libwlmio.Responses.Info.{informed}

module _ {Ins : Type 0} (d : Dsdl) (call : Call Ins) (w : World Ins) (tfr : Transfer) where
  -- Nobody waits for the reply.
  module _ (nobody : task_with_id (make_rsp_specifier tfr) w.tasks ≡ none) where
    pub access_ignored : register_access_response_handler d call tfr w ≡ some w
    unfolding register_access_response_handler async_get_param
    access_ignored = rw nobody

    pub list_ignored : register_list_response_handler d call tfr w ≡ some w
    unfolding register_list_response_handler async_get_param
    list_ignored = rw nobody

    pub info_ignored :
        get_node_info_response_handler d call tfr w
        ≡ async_complete call (make_rsp_specifier tfr) neg_enoent w
    unfolding get_node_info_response_handler async_get_param
    info_ignored = rw nobody

  module _ (c : Task) (waits : task_with_id (make_rsp_specifier tfr) w.tasks ≡ some c) where
    pub access_completes_unread :
        (r : ℤ) (regr : Reg)
        → c.param ≡ none
        → read_response d tfr.payload ≡ some (r, regr)
        → register_access_response_handler d call tfr w
          ≡ async_complete call (make_rsp_specifier tfr) r w
    unfolding register_access_response_handler fill_reg store_reg async_get_param
    access_completes_unread r regr there read = rw (waits, there, read)

    module _ (p : ℕ) (there : c.param ≡ some p) where
      pub access_completes :
          (r : ℤ) (regr : Reg)
          → read_response d tfr.payload ≡ some (r, regr)
          → register_access_response_handler d call tfr w
            ≡ async_complete call (make_rsp_specifier tfr) r (stored w p regr)
      unfolding register_access_response_handler fill_reg store_reg async_get_param
      access_completes r regr read = rw (waits, there, read)

      pub info_completes :
          (r : ℤ) (info : NodeInfo)
          → read_node_info d tfr.payload ≡ some (r, info)
          → get_node_info_response_handler d call tfr w
            ≡ async_complete call (make_rsp_specifier tfr) r (informed w p info)
      unfolding get_node_info_response_handler fill_info store_info async_get_param
      info_completes r info read = rw (waits, there, read)

      -- The caller's array after the reply.
      abbrev pub named : List ℕ → World Ins
      named name = record w { memory = record w.memory { names = update w.memory.names p name } }

      pub list_completes :
          (name : List ℕ)
          → read_listed_name tfr.payload ≡ some name
          → register_list_response_handler d call tfr w
            ≡ async_complete call (make_rsp_specifier tfr) (pos 0) (named name)
      unfolding register_list_response_handler fill_name store_name async_get_param
      list_completes name listed = rw (waits, there, listed)
