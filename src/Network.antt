-- ===== src/Network.antt =====
-- runtime/src/builtin/network.rs and runtime/src/builtin/types.rs: constants of the network, the
-- parameters of the init actor's `Exec`, and what it returns.
use fvm_utils.Base.{ℕ, ◌/◌, ◌^◌, List}
use fvm_utils.Platform.{Platform}

abbrev pub seconds_in_hour : ℕ
seconds_in_hour = 3600

abbrev pub seconds_in_day : ℕ
seconds_in_day = 86400

abbrev pub seconds_in_year : ℕ
seconds_in_year = 31556925

-- the duration of an epoch is a constant of fvm_shared
abbrev pub epochs_in_hour : ℕ → ℕ
epochs_in_hour epoch_duration_seconds = seconds_in_hour / epoch_duration_seconds

abbrev pub epochs_in_day : ℕ → ℕ
epochs_in_day epoch_duration_seconds = seconds_in_day / epoch_duration_seconds

abbrev pub epochs_in_year : ℕ → ℕ
epochs_in_year epoch_duration_seconds = seconds_in_year / epoch_duration_seconds

abbrev pub one_nano_fil : ℕ
one_nano_fil = 10 ^ 9

-- `INIT_EXEC_METHOD_NUM`
abbrev pub init_exec_method_num : ℕ
init_exec_method_num = 2

module _ ⦃p : Platform⦄ where
  pub record InitExecParams : Type 0 where
    pub code_cid : p.Cid
    pub constructor_params : List ℕ

  pub record InitExecReturn : Type 0 where
    pub id_address : p.Address
    pub robust_address : p.Address

  -- `InitExecReturn::default()`
  abbrev pub default : InitExecReturn
  default = record { id_address = p.new_id 0; robust_address = p.new_id 0 }
