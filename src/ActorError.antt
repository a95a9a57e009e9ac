-- ===== src/ActorError.antt =====
-- runtime/src/actor_error.rs: the error that actor methods return, its constructors, the
-- conversions into it, and the two extension traits that add context.
pub mod Context
pub mod OfResult
pub mod OfOption
pub mod Block
pub mod Laws
use fvm_utils.Base.{ℕ, ◌||◌, Option, none, String, prefixed, if◌then◌else◌, nat_eq}
use fvm_utils.Platform.{IpldBlock, ExitCodes}

pub record ActorError : Type 0 where
  pub exit_code : ℕ
  pub exit_data : Option IpldBlock
  pub msg : String

unfoldable pub unchecked : ℕ → String → ActorError
unchecked code m = record { exit_code = code; msg = m; exit_data = none }

unfoldable pub unchecked_with_data : ℕ → String → Option IpldBlock → ActorError
unchecked_with_data code m d = record { exit_code = code; msg = m; exit_data = d }

-- `wrap`
unfoldable pub wrap : String → ActorError → ActorError
wrap m e = record e { msg = prefixed m e.msg }

-- `take_data`: what was there, and the error without it
unfoldable pub take_data : ActorError → Option IpldBlock × ActorError
take_data e = (e.exit_data, record e { exit_data = none })

module _ ⦃c : ExitCodes⦄ where
  -- the match of `checked` on the code
  unfoldable pub checked_code : ℕ → ℕ
  checked_code code =
      if nat_eq code c.sys_missing_return
        || (nat_eq code c.sys_illegal_instruction || nat_eq code c.sys_illegal_exit_code)
      then c.usr_unspecified
      else if c.is_system_error code
      then c.usr_assertion_failed
      else code

  unfoldable pub checked : ℕ → String → Option IpldBlock → ActorError
  unfolding checked_code
  checked code m d = record { exit_code = checked_code code; msg = m; exit_data = d }

  unfoldable pub illegal_argument : String → ActorError
  illegal_argument m = record { exit_code = c.usr_illegal_argument; msg = m; exit_data = none }

  unfoldable pub not_found : String → ActorError
  not_found m = record { exit_code = c.usr_not_found; msg = m; exit_data = none }

  unfoldable pub forbidden : String → ActorError
  forbidden m = record { exit_code = c.usr_forbidden; msg = m; exit_data = none }

  unfoldable pub insufficient_funds : String → ActorError
  insufficient_funds m = record { exit_code = c.usr_insufficient_funds; msg = m; exit_data = none }

  unfoldable pub illegal_state : String → ActorError
  illegal_state m = record { exit_code = c.usr_illegal_state; msg = m; exit_data = none }

  unfoldable pub serialization : String → ActorError
  serialization m = record { exit_code = c.usr_serialization; msg = m; exit_data = none }

  unfoldable pub unhandled_message : String → ActorError
  unhandled_message m = record { exit_code = c.usr_unhandled_message; msg = m; exit_data = none }

  unfoldable pub unspecified : String → ActorError
  unspecified m = record { exit_code = c.usr_unspecified; msg = m; exit_data = none }

  unfoldable pub assertion_failed : String → ActorError
  assertion_failed m = record { exit_code = c.usr_assertion_failed; msg = m; exit_data = none }

-- `fvm_sdk::error::StateUpdateError`, with the text that `to_string` gives
pub data StateUpdateError : Type 0 where
  actor_deleted read_only : String → StateUpdateError

module _ ⦃c : ExitCodes⦄ where
  -- The `From` conversions; the argument is `e.to_string()`.
  unfoldable pub from_encoding_error : String → ActorError
  from_encoding_error e = record { exit_code = c.usr_serialization; msg = e; exit_data = none }

  unfoldable pub from_delete_error : String → ActorError
  from_delete_error e = record { exit_code = c.usr_illegal_argument; msg = e; exit_data = none }

  unfoldable pub from_state_read_error : String → ActorError
  from_state_read_error e = record { exit_code = c.usr_illegal_state; msg = e; exit_data = none }

  unfoldable pub from_state_update_error : StateUpdateError → ActorError
  from_state_update_error (actor_deleted e) = record {
    exit_code = c.usr_illegal_state;
    msg = e;
    exit_data = none;
  }
  from_state_update_error (read_only e) = record {
    exit_code = c.usr_read_only;
    msg = e;
    exit_data = none;
  }
