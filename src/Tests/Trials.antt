-- ===== src/Tests/Trials.antt =====
-- The theorem on the example actor's own tests at a concrete input: a store that is a log of maps and a
-- log of states.
use fvm_utils.Base.{
  ℕ, suc, ◌≡◌, refl, sym, ap, Option, none, some, List, [], ◌∷◌, ◌++◌, String, Result, ok, length,
  get_elem?, arith,
}
use fvm_utils.Platform.{IpldBlock}
use fvm_utils.Action.{done}
use fvm_utils.Downcast.{HamtError}
use fvm_utils.Hamt.{Blocks, Hamt, Contents, put_entry}
use fvm_utils.Mock.Core.{MockRuntime, new}
use fvm_utils.Mock.State.{MockStore}
use fvm_utils.Example.{State, User, UserPersistParam}
use fvm_utils.Example.OnMock.{Serving, Keeps}
use fvm_utils.Example.Sessions.{Visit, session, visited, session_passes}
use fvm_utils.Example.SelfTests.{constructor_works, persists_works, self_tests_pass}
use fvm_utils.Tests.Concrete.{toy, id_address}
use fvm_utils.Tests.Logs.{get_elem?-last, Prefix}
use fvm_utils.Tests.LogMaps.{log_blocks, log_maps}
use fvm_utils.Tests.World.{world_setting, state_at}

record Memory : Type 0 where
  maps : List (Contents User)
  states : List State

abbrev put_state : State → Memory → Result ℕ String × Memory
put_state x b = (ok (suc (length b.states)), record b { states = b.states ++ x ∷ [] })

memory_get-put :
    (x : State) (c : ℕ) (b b' : Memory)
    → put_state x b ≡ (ok c, b')
    → ◌≡◌ {A = Result (Option State) String} (ok (state_at c b'.states)) (ok (some x))
memory_get-put x c b b' e = ground (arith, get_elem?-last b.states x)

abbrev memory_store : MockStore Memory State
memory_store = record {
  put_cbor = put_state;
  get_cbor = λ c b. ok (state_at c b.states);
  get-put = memory_get-put;
}

abbrev maps_of : MockRuntime Memory → List (Contents User)
maps_of m = m.store.maps

abbrev with_maps : List (Contents User) → MockRuntime Memory → MockRuntime Memory
with_maps log m = record m { store = record m.store { maps = log } }

abbrev memory_blocks : Blocks (MockRuntime Memory)
memory_blocks = log_blocks maps_of with_maps (λ log m. refl)

abbrev memory_users : Hamt memory_blocks ℕ HamtError User
memory_users = log_maps maps_of with_maps (λ log m. refl)

abbrev builtin_code : String → ℕ
builtin_code name = 7

states_grow :
    (x : State) (c : ℕ) (s s' : MockRuntime Memory)
    → put_state x s.store ≡ (ok c, s'.store)
    → Prefix s.store.maps s'.store.maps
states_grow x c s s' e i a h =
    let same : s'.store.maps ≡ s.store.maps = ap (λ q. q.1.maps) (sym e) in rw same h

map_there :
    (c : ℕ) (f : Contents User) (s : MockRuntime Memory)
    → get_elem? s.store.maps c ≡ some f
    → (m : Contents User) × (memory_users.load_with_bit_width c 5 s ≡ ok m)
map_there c f s h = (f, ground (arith, h))

same_store : (s s' : MockRuntime Memory) → s.store ≡ s'.store → Prefix s.store.maps s'.store.maps
same_store s s' e i a h = rw (← e) h

serving : Serving world_setting builtin_code memory_store memory_users
serving = record {
  flushes = λ m s. (length s.store.maps, m, record s.store { maps = s.store.maps ++ m ∷ [] }, refl);
  loads = map_there;
  sets = λ k v m f s h. (m k, put_entry m k (some v), refl);
  puts = λ x b. (suc (length b.states), record b { states = b.states ++ x ∷ [] }, refl);
  store_only = same_store;
  puts_grow = states_grow;
}

abbrev sample_block : IpldBlock
sample_block = record { codec = 81; bytes = [] }

abbrev encode_sample : UserPersistParam → Result (Option IpldBlock) String
encode_sample x = ok (some sample_block)

abbrev no_memory : Memory
no_memory = record { maps = []; states = [] }

self_tests_pass_example :
    ((constructor_works world_setting builtin_code 0
        (λ bytes. bytes)
        no_memory
        encode_sample
        memory_store
        memory_users).0
      ≡ done tt)
    × ((persists_works world_setting builtin_code 0
          (λ bytes. bytes)
          no_memory
          encode_sample
          memory_store
          memory_users).0
        ≡ done tt)
self_tests_pass_example =
    self_tests_pass world_setting builtin_code 0 (λ bytes. bytes) no_memory encode_sample
      memory_store memory_users serving 1 refl sample_block refl refl (omega arith) (omega arith)

-- a mock whose store has the state of an actor that was constructed, and two calls
abbrev no_users : Contents User
no_users k = none

abbrev first_state : State
first_state = record { call_count = 0; typed_hamt = record { cid = 0 } }

abbrev constructed : MockRuntime Memory
constructed =
    record (new 0 (λ bytes. bytes) (record { maps = no_users ∷ []; states = first_state ∷ [] })) {
      state = some 1;
    }

abbrev two_visits : List Visit
two_visits =
    record { address = id_address 4; code = 5; name = "sample" }
    ∷ record { address = id_address 6; code = 7; name = "sample" }
    ∷ []

session_passes_example :
    (st' : State) × (m' : MockRuntime Memory) × (session world_setting builtin_code encode_sample
        memory_store memory_users two_visits constructed
      ≡ (done tt, m'))
    × (st'.call_count ≡ 2)
    × Keeps world_setting builtin_code memory_store memory_users serving st'
        (visited world_setting builtin_code encode_sample memory_store memory_users no_users
          two_visits)
        m'
unfolding new
session_passes_example =
    session_passes world_setting builtin_code encode_sample memory_store memory_users serving
      (omega arith) (omega arith) two_visits 0 constructed first_state no_users
      ((sample_block, refl, refl), ((sample_block, refl, refl), tt)) refl (1, refl, refl, refl)
      (omega arith) refl
