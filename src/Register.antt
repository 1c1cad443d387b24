-- ===== src/Register.antt =====
-- Register values: `struct wlmio_register_access` of src/libwlmio/wlmio.h, and from
-- src/libwlmio/wlmio.c the check of such a value, the request payload that
-- `wlmio_register_access` builds and what `register_access_response_handler` reads of a reply.
pub mod Kind
mod Value
pub mod Widths
pub mod Layout
pub mod Request
pub mod Response
unfoldable pub use Value.*
