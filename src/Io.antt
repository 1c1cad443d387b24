-- ===== src/Io.antt =====
-- What the functions of src/libwlmio/io.c for the I/O modules share: the names of their registers, the
-- values they write, and their contexts.
pub mod Read
pub mod Write
pub mod Settings
pub mod Dispatch
use libwlmio.Prelude.{ℕ, ◌+◌, List, ◌∷◌, ◌++◌, Option, none, some, ltb, if◌then◌else◌, length, drop}
use libwlmio.State.{World, ReadContext, ConfigureContext, IntervalContext, update}
use libwlmio.Register.{Reg}
use libwlmio.Requests.{RequestAnswers}

-- What one call meets: the address that malloc gives its context, what the memory held where
-- `sample_interval` is, what the stack held where `regw.value` is, and what its requests meet, the
-- first under 0.
pub record IoAnswers : Type 0 where
  pub context_memory : Option ℕ
  pub unset_interval : ℕ
  pub stack : List ℕ
  pub requests : ℕ → RequestAnswers

-- The `switch` over the channel, which has the cases 0 to `cases` - 1: "ch1" and so on with a dot and
-- the rest of the name, and NULL for every other channel.
unfoldable pub channel : ℕ → List ℕ → ℕ → Option (List ℕ)
channel cases rest ch =
    if ltb ch cases then some (b'c' ∷ b'h' ∷ (b'1' + ch) ∷ b'.' ∷ rest) else none

-- `regw` with one element, whose bytes are copied to the front of `value`.
abbrev pub scalar : List ℕ → ℕ → List ℕ → Reg
scalar stack type bytes = record {
  type = type;
  len = 1;
  value = bytes ++ drop (length bytes) stack;
}

module _ {Ins : Type 0} where
  unfoldable pub put_read : ℕ → Option ReadContext → World Ins → World Ins
  put_read p t w = record w { memory = record w.memory { reads = update w.memory.reads p t } }

  unfoldable pub put_configure : ℕ → Option ConfigureContext → World Ins → World Ins
  put_configure p t w = record w {
    memory = record w.memory { configures = update w.memory.configures p t };
  }

  unfoldable pub put_interval : ℕ → Option IntervalContext → World Ins → World Ins
  put_interval p t w = record w {
    memory = record w.memory { intervals = update w.memory.intervals p t };
  }
