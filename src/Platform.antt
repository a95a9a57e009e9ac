-- ===== src/Platform.antt =====
-- What the crates take from fvm_shared, cid and fvm_ipld_encoding: addresses, content identifiers,
-- token amounts, exit codes and IPLD blocks. None of it is in the repository, so it is a parameter.
use fvm_utils.Base.{ℕ, ◌≤◌, ◌<◌, ◌≡◌, Bool, Option, some, List, String, PartialEq, ltb}

-- The variants of `Protocol` and `Payload` that the source names, and one for the rest.
pub data Protocol : Type 0 where
  id secp256k1 actor bls other_protocol : Protocol

-- `IpldBlock { codec, data }`
pub record IpldBlock : Type 0 where
  pub codec : ℕ
  pub bytes : List ℕ

-- The variants of `fvm_shared::error::ErrorNumber` that the source names; any other has its text.
pub data ErrorNumber : Type 0 where
  not_found insufficient_funds limit_exceeded illegal_argument : ErrorNumber
  other_number : String → ErrorNumber

-- The constants of `ExitCode`, by their u32 values.
pub record ExitCodes : Type 0 where
  pub success : ℕ
  pub sys_sender_state_invalid : ℕ
  pub sys_illegal_instruction : ℕ
  pub sys_missing_return : ℕ
  pub sys_illegal_exit_code : ℕ
  pub usr_illegal_argument : ℕ
  pub usr_not_found : ℕ
  pub usr_forbidden : ℕ
  pub usr_insufficient_funds : ℕ
  pub usr_illegal_state : ℕ
  pub usr_serialization : ℕ
  pub usr_unhandled_message : ℕ
  pub usr_unspecified : ℕ
  pub usr_assertion_failed : ℕ
  pub usr_read_only : ℕ
  pub first_user_exit_code : ℕ
  pub is_system_error : ℕ → Bool
  -- `is_system_error` tests the range below `FIRST_USER_EXIT_CODE`: SYS codes are in it, USR codes
  -- are not.
  pub system_range : (c : ℕ) → is_system_error c ≡ ltb c first_user_exit_code
  pub missing_return_system : sys_missing_return < first_user_exit_code
  pub illegal_instruction_system : sys_illegal_instruction < first_user_exit_code
  pub illegal_exit_code_system : sys_illegal_exit_code < first_user_exit_code
  pub unspecified_user : first_user_exit_code ≤ usr_unspecified
  pub insufficient_funds_user : first_user_exit_code ≤ usr_insufficient_funds
  pub assertion_failed_user : first_user_exit_code ≤ usr_assertion_failed

pub record Platform : Type 1 where
  pub Address : Type 0
  pub Cid : Type 0
  pub TokenAmount : Type 0
  pub Signature : Type 0
  pub address_eq : PartialEq Address
  pub cid_eq : PartialEq Cid
  pub amount_eq : PartialEq TokenAmount
  pub signature_eq : PartialEq Signature
  pub codes : ExitCodes
  pub new_id : ℕ → Address
  pub protocol : Address → Protocol
  pub actor_id : Address → Option ℕ
  pub address_bytes : Address → List ℕ
  pub show_address : Address → String
  pub show_cid : Cid → String
  pub show_number : ℕ → String
  -- `{:?}`
  pub debug_address : Address → String
  pub debug_addresses : List Address → String
  pub debug_cid : Cid → String
  pub debug_cids : List Cid → String
  pub debug_amount : TokenAmount → String
  pub show_error_number : ErrorNumber → String
  -- `METHOD_SEND` and `METHOD_CONSTRUCTOR`
  pub method_send : ℕ
  pub method_constructor : ℕ
  pub amount_zero : TokenAmount
  pub amount_add : TokenAmount → TokenAmount → TokenAmount
  pub amount_sub : TokenAmount → TokenAmount → TokenAmount
  pub amount_lt : TokenAmount → TokenAmount → Bool
  pub protocol-new_id : (n : ℕ) → protocol (new_id n) ≡ id
  pub actor_id-new_id : (n : ℕ) → actor_id (new_id n) ≡ some n

-- The exit codes of the platform at hand, and its comparisons.
instance abbrev pub platform_codes : ⦃p : Platform⦄ → ExitCodes
platform_codes ⦃p⦄ = p.codes

abbrev pub same_address : ⦃p : Platform⦄ → p.Address → p.Address → Bool
same_address ⦃p⦄ = p.address_eq.eq

abbrev pub same_cid : ⦃p : Platform⦄ → p.Cid → p.Cid → Bool
same_cid ⦃p⦄ = p.cid_eq.eq
