-- ===== src/State.antt =====
-- `enum State` of src/lib.rs.
pub mod Laws
use Prim.Native.String.{String}
use ref_count.Common.{ℕ, Bool, true, false, Option, none, some, ◌==◌, if◌then◌else◌}
use ref_count.Consts.{block_state}

pub data State : Type 0 where
  blocked : State
  allowed : State

abbrev pub discriminant : State → ℕ
discriminant blocked = 1
discriminant allowed = 0

-- `transmute` from `u32`: undefined at a value that is no discriminant.
abbrev pub transmute : ℕ → Option State
transmute n = if n == 1 then some blocked else if n == 0 then some allowed else none

unfoldable pub from_raw : ℕ → Option State
unfolding block_state
from_raw state = transmute (block_state state)

unfoldable pub is_allowed : State → Bool
is_allowed allowed = true
is_allowed blocked = false

unfoldable pub is_blocked : State → Bool
is_blocked blocked = true
is_blocked allowed = false

-- `__state_format!`, used by `Display` and `Debug`
unfoldable pub state_format : State → String
state_format allowed = "allowed"
state_format blocked = "blocked"
