-- ===== src/Tests/Lives.antt =====
-- The theorem on the whole life of the example actor at a concrete input: it is constructed, refuses a
-- message with an unknown number, and is called.
use fvm_utils.Base.{◌≡◌, ◌≢◌, refl, [], ◌∷◌, none, some, arith, ok}
use fvm_utils.Fvm.Trampoline.{trampoline, returned, aborted}
use fvm_utils.ActorError
use fvm_utils.Shared.{restrict_internal_api}
use fvm_utils.Dispatch.{find_method}
use fvm_utils.Hamt.{make_map_with_root_and_bitwidth}
use fvm_utils.TCid.{load}
use fvm_utils.TCid.Map
use fvm_utils.Fvm.Instance.{
  caller, get_actor_code_cid, resolve_builtin_actor_type, validate_immediate_caller_is,
  validate_immediate_caller_accept_any,
}
use fvm_utils.Fvm.State.{create, write_state, transaction, load_state, commit}
use fvm_utils.Example.{State, invoke, upsert_user, count_and_save, count_call, save}
use fvm_utils.Example.Answers.{actor}
use fvm_utils.Example.Stages.{Separate}
use fvm_utils.Example.Lifecycle.{calls_of, Messages, begin, answer, abort, Stage, life_recorded}
use fvm_utils.Tests.Concrete.{toy, id_address}
use fvm_utils.Tests.World.{
  World, world_syscalls, world_store, world_users, world_setting, fresh_world, world_get,
}
use fvm_utils.Tests.Actor.{world_chain, constructed, asked, persisted}

pub no_state_at_zero : (k : World) (st : State) → world_get 0 k ≢ ok (some st)
no_state_at_zero k st h = ground arith

separate : Separate world_syscalls world_store world_users
separate = record { no_state = no_state_at_zero; flush_root = λ m s. refl }

construction :
    trampoline world_syscalls
      (actor world_setting world_syscalls world_store world_users)
      0
      fresh_world
    ≡ (returned 0, constructed)
unfolding trampoline invoke restrict_internal_api caller get_actor_code_cid
    resolve_builtin_actor_type find_method validate_immediate_caller_is create write_state
construction = refl

-- a message with an unknown number
abbrev puzzled : World
puzzled = record constructed { sender = 4; method = 7; params = none }

refusal :
    trampoline world_syscalls (actor world_setting world_syscalls world_store world_users) 0 puzzled
    ≡ (aborted 22 "invalid method: n", puzzled)
unfolding trampoline invoke restrict_internal_api caller get_actor_code_cid
    resolve_builtin_actor_type find_method ActorError.unhandled_message
refusal = refl

call_to_persist :
    trampoline world_syscalls (actor world_setting world_syscalls world_store world_users) 0 asked
    ≡ (returned 0, persisted)
unfolding trampoline invoke restrict_internal_api caller get_actor_code_cid
    resolve_builtin_actor_type find_method validate_immediate_caller_accept_any transaction
    load_state commit write_state upsert_user count_and_save count_call save load Map.maybe_load
    Map.found_map Map.flush make_map_with_root_and_bitwidth
call_to_persist = refl

abbrev over : World
over = record persisted { sender = 6; method = 7; params = none }

three_messages :
    Messages world_setting world_syscalls world_store world_users world_chain fresh_world
      ((id_address 4, "sample") ∷ [])
      over
unfolding calls_of
three_messages =
    answer 0 0
      (abort 0 22 "invalid method: n" (answer 0 0 begin construction (4, 7, none, refl) refl)
        refusal (4, 3_000_000_000, some (record { codec = 81; bytes = [] }), refl))
      call_to_persist (6, 7, none, refl) refl

life_recorded_example :
    Stage world_setting world_syscalls world_store world_users world_chain
      ((id_address 4, "sample") ∷ [])
      over
life_recorded_example =
    life_recorded world_setting world_syscalls world_store world_users world_chain separate
      fresh_world over ((id_address 4, "sample") ∷ []) (omega arith) refl three_messages
