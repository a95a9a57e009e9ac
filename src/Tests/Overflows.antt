-- ===== src/Tests/Overflows.antt =====
-- The overflow of the count of calls at a concrete input: the greatest `usize` has 32 bits.
use fvm_utils.Base.{◌≡◌, refl, none, [], ◌∷◌, arith}
use fvm_utils.Hamt.{make_map_with_root_and_bitwidth}
use fvm_utils.TCid.{load}
use fvm_utils.TCid.Map
use fvm_utils.Fvm.Instance.{fvm_runtime, default}
use fvm_utils.Fvm.State.{fvm_state_runtime}
use fvm_utils.Fvm.Trampoline.{trampoline, aborted}
use fvm_utils.Example.{State, invoke}
use fvm_utils.Example.Messages.{Brings}
use fvm_utils.Example.Overflow.{message_overflows}
use fvm_utils.Tests.Concrete.{toy}
use fvm_utils.Tests.World.{World, world_syscalls, world_store, world_users, world_setting}
use fvm_utils.Tests.Actor.{asked, sample, no_users, one_user}

abbrev full_state : State
full_state = record { call_count = 4_294_967_295; typed_hamt = record { cid = 0 } }

abbrev full_world : World
full_world = record asked { states = full_state ∷ [] }

full_is_brought : Brings world_setting world_syscalls world_store world_users 0 sample full_world
full_is_brought = record {
  block = record { codec = 81; bytes = [] };
  params = refl;
  number = refl;
  exported = omega arith;
  no_constructor = omega arith;
  decoded = refl;
}

full_message_aborts :
    trampoline world_syscalls
      (invoke world_setting world_users
        (fvm_runtime world_syscalls)
        (fvm_state_runtime world_syscalls world_store))
      0
      full_world
    ≡ (aborted 24 "attempt to add with overflow", full_world)
unfolding load Map.maybe_load Map.found_map make_map_with_root_and_bitwidth default
full_message_aborts =
    message_overflows world_setting world_syscalls world_store world_users 0 sample full_world 1
      full_state full_is_brought (refl, refl) refl (no_users, one_user, none, refl, refl)
