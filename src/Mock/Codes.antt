-- ===== src/Mock/Codes.antt =====
-- runtime/src/test_utils.rs: the codes of the builtin actors that the tests know.
use fvm_utils.Base.{Option, none, some, List, [], ◌∷◌, String, if◌then◌else◌}
use fvm_utils.Platform.{Platform}
use fvm_utils.Builtin.{
  ActorType, system, init, cron, account, power, miner, market, payment_channel, multisig, reward,
  verified_registry,
}
use fvm_utils.Builtin.Laws.{type_eq}

-- The codes and `ACTOR_TYPES`; `make_builtin` makes an identifier from a name, and distinct names give
-- distinct identifiers, so that the order of the map's keys does not matter.
module _ ⦃p : Platform⦄ (make_builtin : String → p.Cid) where
  abbrev pub system_actor_code_id : p.Cid
  system_actor_code_id = make_builtin "fil/test/system"

  abbrev pub init_actor_code_id : p.Cid
  init_actor_code_id = make_builtin "fil/test/init"

  abbrev pub cron_actor_code_id : p.Cid
  cron_actor_code_id = make_builtin "fil/test/cron"

  abbrev pub account_actor_code_id : p.Cid
  account_actor_code_id = make_builtin "fil/test/account"

  abbrev pub power_actor_code_id : p.Cid
  power_actor_code_id = make_builtin "fil/test/storagepower"

  abbrev pub miner_actor_code_id : p.Cid
  miner_actor_code_id = make_builtin "fil/test/storageminer"

  abbrev pub market_actor_code_id : p.Cid
  market_actor_code_id = make_builtin "fil/test/storagemarket"

  abbrev pub paych_actor_code_id : p.Cid
  paych_actor_code_id = make_builtin "fil/test/paymentchannel"

  abbrev pub multisig_actor_code_id : p.Cid
  multisig_actor_code_id = make_builtin "fil/test/multisig"

  abbrev pub reward_actor_code_id : p.Cid
  reward_actor_code_id = make_builtin "fil/test/reward"

  abbrev pub verifreg_actor_code_id : p.Cid
  verifreg_actor_code_id = make_builtin "fil/test/verifiedregistry"

  abbrev pub sca_actor_code_id : p.Cid
  sca_actor_code_id = make_builtin "fil/test/sca"

  abbrev pub subnet_actor_code_id : p.Cid
  subnet_actor_code_id = make_builtin "fil/test/subnet"

  unfoldable pub actor_types : List (p.Cid × ActorType)
  actor_types =
      (system_actor_code_id, system)
      ∷ (init_actor_code_id, init)
      ∷ (cron_actor_code_id, cron)
      ∷ (account_actor_code_id, account)
      ∷ (power_actor_code_id, power)
      ∷ (miner_actor_code_id, miner)
      ∷ (market_actor_code_id, market)
      ∷ (paych_actor_code_id, payment_channel)
      ∷ (multisig_actor_code_id, multisig)
      ∷ (reward_actor_code_id, reward)
      ∷ (verifreg_actor_code_id, verified_registry)
      ∷ []

  -- `CALLER_TYPES_SIGNABLE` of the tests
  abbrev pub signable_codes : List p.Cid
  signable_codes = account_actor_code_id ∷ multisig_actor_code_id ∷ []

  -- the keys of `NON_SINGLETON_CODES`
  abbrev pub non_singleton_codes : List p.Cid
  non_singleton_codes =
      account_actor_code_id ∷ paych_actor_code_id ∷ multisig_actor_code_id ∷ miner_actor_code_id
      ∷ []

module _ ⦃p : Platform⦄ where
  -- `ACTOR_TYPES.get(code_id)`
  unfoldable pub type_of_code : p.Cid → List (p.Cid × ActorType) → Option ActorType
  type_of_code c [] = none
  type_of_code c ((d, t) ∷ rest) = if p.cid_eq.eq d c then some t else type_of_code c rest

  -- `iter().find_map(|(cid, t)| if t == typ …)`
  unfoldable pub code_of_type : ActorType → List (p.Cid × ActorType) → Option p.Cid
  code_of_type t [] = none
  code_of_type t ((c, u) ∷ rest) = if type_eq u t then some c else code_of_type t rest
