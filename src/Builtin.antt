-- ===== src/Builtin.antt =====
-- runtime/src/builtin: the types of the builtin actors and the reserved actor ids. The constants of
-- network.rs that divide by a constant of fvm_shared are left out.
pub mod Laws
use fvm_utils.Base.{ℕ, ◌^◌, Bool, List, [], ◌∷◌, String, if◌then◌else◌, nat_eq, ℤ, pos, negsuc}

-- `Type`, with the discriminants of `#[repr(i32)]` in `as_i32`
pub data ActorType : Type 0 where
  system init cron account power miner market payment_channel multisig reward : ActorType
  verified_registry data_cap : ActorType

-- `typ as i32`
unfoldable pub as_i32 : ActorType → ℤ
as_i32 system = pos 1
as_i32 init = pos 2
as_i32 cron = pos 3
as_i32 account = pos 4
as_i32 power = pos 5
as_i32 miner = pos 6
as_i32 market = pos 7
as_i32 payment_channel = pos 8
as_i32 multisig = pos 9
as_i32 reward = pos 10
as_i32 verified_registry = pos 11
as_i32 data_cap = pos 12

unfoldable pub from_i32 : ℤ → ActorType
from_i32 (pos u) =
    if nat_eq u 1
    then system
    else if nat_eq u 2
    then init
    else if nat_eq u 3
    then cron
    else if nat_eq u 4
    then account
    else if nat_eq u 5
    then power
    else if nat_eq u 6
    then miner
    else if nat_eq u 7
    then market
    else if nat_eq u 8
    then payment_channel
    else if nat_eq u 9
    then multisig
    else if nat_eq u 10
    then reward
    else if nat_eq u 11
    then verified_registry
    else data_cap
from_i32 (negsuc u) = data_cap

unfoldable pub name : ActorType → String
name system = "system"
name init = "init"
name cron = "cron"
name account = "account"
name power = "storagepower"
name miner = "storageminer"
name market = "storagemarket"
name payment_channel = "paymentchannel"
name multisig = "multisig"
name reward = "reward"
name verified_registry = "verifiedregistry"
name data_cap = "datacap"

abbrev pub caller_types_signable : List ActorType
caller_types_signable = account ∷ multisig ∷ []

abbrev pub system_actor_id : ℕ
system_actor_id = 0

abbrev pub init_actor_id : ℕ
init_actor_id = 1

abbrev pub reward_actor_id : ℕ
reward_actor_id = 2

abbrev pub cron_actor_id : ℕ
cron_actor_id = 3

abbrev pub storage_power_actor_id : ℕ
storage_power_actor_id = 4

abbrev pub storage_market_actor_id : ℕ
storage_market_actor_id = 5

abbrev pub verified_registry_actor_id : ℕ
verified_registry_actor_id = 6

abbrev pub datacap_token_actor_id : ℕ
datacap_token_actor_id = 7

abbrev pub eam_actor_id : ℕ
eam_actor_id = 10

abbrev pub burnt_funds_actor_id : ℕ
burnt_funds_actor_id = 99

abbrev pub first_non_singleton_addr : ℕ
first_non_singleton_addr = 100

-- the lowest FRC-42 method number, `1 << 24`
abbrev pub first_exported_method_number : ℕ
first_exported_method_number = 2 ^ 24
