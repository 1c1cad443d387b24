-- ===== src/Transport/Specifier.antt =====
-- The identifiers under which requests wait.
use libwlmio.Prelude.{◌↔◌, ◌<◌, ◌≡◌, arith}
use libwlmio.State.{Transfer}
use libwlmio.Transport.{make_rsp_specifier}

-- The ranges of a service transfer: node, transfer and service identifiers.
pub record IsService (t : Transfer) : Type 0 where
  pub node_fits : t.remote_node_id < 128
  pub transfer_fits : t.transfer_id < 32
  pub port_fits : t.port_id < 512

-- Two service transfers have the same specifier exactly when they agree on the remote node, the
-- transfer identifier and the service; their kind and payload play no part. It fits 21 bits.
pub make_rsp_specifier-eq :
    (s t : Transfer)
    → IsService s
    → IsService t
    → ((make_rsp_specifier s ≡ make_rsp_specifier t) ↔ (
        (s.remote_node_id ≡ t.remote_node_id)
        × (s.transfer_id ≡ t.transfer_id)
        × (s.port_id ≡ t.port_id)))
      × (make_rsp_specifier s < 2097152)
unfolding make_rsp_specifier
make_rsp_specifier-eq s t h k =
    ((λ e. (omega arith, omega arith, omega arith), λ (a, b, c). rw (a, b, c)), omega arith)
