-- ===== src/Responses.antt =====
-- The handlers of replies in src/libwlmio/wlmio.c: `get_node_info_response_handler`,
-- `register_list_response_handler`, `register_access_response_handler` and
-- `execute_command_response_handler`.
pub mod Access
pub mod Info
pub mod Completes
pub mod Names
pub mod Commands
use libwlmio.Prelude.{
  ℕ, ◌*◌, List, [], ◌∷◌, Option, none, some, ◌>>=◌, ltb, if◌then◌else◌, ℤ, pos, is_neg, length,
  drop,
}
use libwlmio.Wire.{Dsdl, copy_to, zeros}
use libwlmio.State.{World, Transfer, Memory, update}
use libwlmio.Register.{Reg}
use libwlmio.Register.Response.{read_response}
use libwlmio.NodeInfo.{NodeInfo, read_node_info}
use libwlmio.Async.{Call, async_complete, async_get_param}
use libwlmio.Transport.{make_rsp_specifier}

-- `name` after the handler: 51 bytes that are zeroed, then all of the payload but its first byte.
-- The length in that byte is read and limited to 50, and then not used.
unfoldable pub read_listed_name : List ℕ → Option (List ℕ)
read_listed_name payload =
    if ltb 1 (length payload) then copy_to (zeros 51) 0 (drop 1 payload) else some (zeros 51)

module _ {Ins : Type 0} where
  store_info : Option ℕ → NodeInfo → World Ins → Option (World Ins)
  store_info none info w = none
  store_info (some p) info w =
      some (record w { memory = record w.memory { infos = update w.memory.infos p info } })

  store_name : Option ℕ → List ℕ → World Ins → Option (World Ins)
  store_name none name w = none
  store_name (some p) name w =
      some (record w { memory = record w.memory { names = update w.memory.names p name } })

  -- `if(uregr) { *uregr = regr; }`
  store_reg : Option ℕ → Reg → World Ins → World Ins
  store_reg none regr w = w
  store_reg (some p) regr w = record w {
    memory = record w.memory { regs = update w.memory.regs p regr };
  }

module _ {Ins : Type 0} (d : Dsdl) (call : Call Ins) where
  fill_info : Transfer → Option ℕ → World Ins → Option (World Ins)
  unfolding store_info
  fill_info tfr node_info w = do
    (r, info) ← read_node_info d tfr.payload
    w ← store_info node_info info w
    async_complete call (make_rsp_specifier tfr) r w

  -- A reply that nothing waits for is completed all the same, to no effect.
  unfoldable pub get_node_info_response_handler : Transfer → World Ins → Option (World Ins)
  unfolding fill_info
  get_node_info_response_handler tfr w =
      let (r, node_info) = async_get_param (make_rsp_specifier tfr) w in
      if is_neg r
      then async_complete call (make_rsp_specifier tfr) r w
      else fill_info tfr node_info w

  fill_name : Transfer → Option ℕ → World Ins → Option (World Ins)
  unfolding store_name
  fill_name tfr name w = do
    listed ← read_listed_name tfr.payload
    w ← store_name name listed w
    async_complete call (make_rsp_specifier tfr) (pos 0) w

  unfoldable pub register_list_response_handler : Transfer → World Ins → Option (World Ins)
  unfolding fill_name
  register_list_response_handler tfr w =
      let (r, name) = async_get_param (make_rsp_specifier tfr) w in
      if is_neg r then some w else fill_name tfr name w

  fill_reg : Transfer → Option ℕ → World Ins → Option (World Ins)
  unfolding store_reg
  fill_reg tfr uregr w = do
    (r, regr) ← read_response d tfr.payload
    async_complete call (make_rsp_specifier tfr) r (store_reg uregr regr w)

  unfoldable pub register_access_response_handler : Transfer → World Ins → Option (World Ins)
  unfolding fill_reg
  register_access_response_handler tfr w =
      let (r, uregr) = async_get_param (make_rsp_specifier tfr) w in
      if is_neg r then some w else fill_reg tfr uregr w

  -- WLMIO_COMMAND_STATUS_SUCCESS is 0.
  unfoldable pub execute_command_response_handler : Transfer → World Ins → Option (World Ins)
  execute_command_response_handler tfr w =
      let status = if ltb 0 (length tfr.payload) then d.get_u8 tfr.payload (0 * 8) 8 else 0 in
      async_complete call (make_rsp_specifier tfr) (pos status) w
