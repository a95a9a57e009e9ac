-- ===== src/Tests/Actor.antt =====
-- The theorems on the example actor at concrete inputs: it is constructed and called once.
use fvm_utils.Base.{Option, ℕ, arith, some, ◌+◌, ◌≡◌, refl, true, false, none, [], ◌∷◌}
use fvm_utils.Platform.{platform_codes, IpldBlock}
use fvm_utils.ActorError.{ActorError}
use fvm_utils.Action.{done, fail}
use fvm_utils.Hamt.{Contents, put_entry, make_empty_map, make_map_with_root_and_bitwidth}
use fvm_utils.Fvm.State.{state}
use fvm_utils.TCid.{load}
use fvm_utils.TCid.Map
use fvm_utils.Example.{
  State, User, UserPersistParam, new, upsert_user, count_and_save, count_call, save,
}
use fvm_utils.Example.Laws.{Users}
use fvm_utils.Example.OnFvm.{persist_on_fvm, inside, persist_commits, persist_without_map}
use fvm_utils.Example.Calls.{construct_on_fvm, constructor_creates}
use fvm_utils.Fvm.Instance.{fvm_runtime}
use fvm_utils.Fvm.State.{fvm_state_runtime}
use fvm_utils.Fvm.Trampoline.{trampoline, returned}
use fvm_utils.Example.{invoke}
use fvm_utils.Example.Messages.{Brings, message_persists}
use fvm_utils.Tests.Concrete.{toy, id_address}
use fvm_utils.Fvm.Instance.{default}
use fvm_utils.Fvm.Transactions.{Writes}
use fvm_utils.Example.History.{Chain}
use fvm_utils.Tests.World.{
  world_blocks, world_root, world_get, World, Rt, world_syscalls, world_store, world_users,
  world_setting, fresh_world, fresh_runtime,
}

abbrev pub no_users : Contents User
no_users k = none

abbrev pub first_state : State
first_state = record { call_count = 0; typed_hamt = record { cid = 0 } }

-- the kernel after the constructor has made its map, and after it has written its state
abbrev with_map : World
with_map = record fresh_world { maps = no_users ∷ [] }

abbrev pub constructed : World
constructed = record with_map { root = 1; states = first_state ∷ [] }

abbrev map_made : Rt
map_made = record { kernel = with_map; in_transaction = false; caller_validated = true }

constructor_creates_example :
    let after = record map_made { kernel = constructed } in
    (construct_on_fvm world_setting world_syscalls world_store world_users fresh_runtime
      ≡ (done tt, after))
    × (state world_syscalls world_store after ≡ (done first_state, after))
    × (first_state.call_count ≡ 0)
    × Users world_setting world_users first_state (λ key. none) after
unfolding new Map.new_hamt make_empty_map
constructor_creates_example =
    constructor_creates world_setting world_syscalls world_store world_users fresh_runtime map_made
      first_state 0 1 constructed refl refl refl refl refl
      (record with_map { states = first_state ∷ [] }, refl, refl) (λ i a h. h)

-- a later message to `persist` from the caller 4
abbrev pub asked : World
asked = record constructed {
  sender = 4;
  method = 3_000_000_000;
  params = some (record { codec = 81; bytes = [] });
}

abbrev pub ready : Rt
ready = record fresh_runtime { kernel = asked }

abbrev pub sample : UserPersistParam
sample = record { name = "sample" }

abbrev pub four : User
four = record { name = "sample"; owner = id_address 4 }

abbrev pub one_user : Contents User
one_user = put_entry no_users [] (some four)

abbrev pub second_state : State
second_state = record { call_count = 1; typed_hamt = record { cid = 1 } }

abbrev pub map_saved : Rt
map_saved = record (inside world_setting world_syscalls world_store world_users ready) {
  kernel = record ready.kernel { maps = no_users ∷ one_user ∷ [] };
}

abbrev pub persisted : World
persisted = record map_saved.kernel { root = 2; states = first_state ∷ second_state ∷ [] }

abbrev pub finished : Rt
finished = record map_saved { kernel = persisted; in_transaction = false }

sample_is_brought :
    Brings world_setting world_syscalls world_store world_users 0 sample ready.kernel
sample_is_brought = record {
  block = record { codec = 81; bytes = [] };
  params = refl;
  number = refl;
  exported = omega arith;
  no_constructor = omega arith;
  decoded = refl;
}

message_persists_example :
    (trampoline world_syscalls
        (invoke world_setting world_users
          (fvm_runtime world_syscalls)
          (fvm_state_runtime world_syscalls world_store))
        0
        ready.kernel
      ≡ (returned 0, persisted))
    × (state world_syscalls world_store finished ≡ (done second_state, finished))
    × (second_state.call_count ≡ first_state.call_count + 1)
    × Users world_setting world_users second_state one_user finished
unfolding upsert_user count_and_save count_call save load Map.maybe_load Map.found_map Map.flush
    make_map_with_root_and_bitwidth default
message_persists_example =
    message_persists world_setting world_syscalls world_store world_users 0 sample ready.kernel
      persisted map_saved 1 2 first_state second_state no_users sample_is_brought (refl, refl) refl
      refl refl (record map_saved.kernel { states = first_state ∷ second_state ∷ [] }, refl, refl)
      (λ i a h. h)

-- a state whose map is not in the store
abbrev lost_state : State
lost_state = record { call_count = 0; typed_hamt = record { cid = 9 } }

abbrev lost : Rt
lost = record ready { kernel = record asked { states = lost_state ∷ [] } }

persist_without_map_example :
    (e : ActorError) × (persist_on_fvm world_setting world_syscalls world_store world_users sample
        lost
      ≡ (fail e, record lost { caller_validated = true }))
    × (e.exit_code ≡ 20)
unfolding Map.maybe_load Map.found_map make_map_with_root_and_bitwidth
persist_without_map_example =
    persist_without_map world_setting world_syscalls world_store world_users sample lost 1
      lost_state refl (refl, refl) refl

sample_persisted :
    persist_on_fvm world_setting world_syscalls world_store world_users sample ready
    ≡ (done tt, finished)
unfolding upsert_user count_and_save count_call save load Map.maybe_load Map.found_map Map.flush
    make_map_with_root_and_bitwidth
sample_persisted =
    (persist_commits world_setting world_syscalls world_store world_users sample ready map_saved 1 2
      first_state second_state persisted no_users refl (refl, refl) refl refl
      (record map_saved.kernel { states = first_state ∷ second_state ∷ [] }, refl, refl)
      (λ i a h. h)).0

-- the next message has its caller, its number and its parameters
abbrev pub NextCaller : World → World → Type 0
NextCaller k k' =
    (n m : ℕ) × (ps : Option IpldBlock) × (k' ≡ record k { sender = n; method = m; params = ps })

pub world_writes_grow :
    (st : State) (rt : Rt) (c : ℕ) (k : World)
    → Writes world_syscalls world_store st rt.kernel c k
    → world_blocks.Extends rt (record rt { kernel = k; in_transaction = false })
world_writes_grow st rt c k (k1, put, set) i a h =
    let same : k.maps ≡ rt.kernel.maps = ground (arith, put, set) in rw same h

pub next_root : (k k' : World) → NextCaller k k' → world_root k' ≡ world_root k
next_root k k' (n, m, ps, e) = rw e refl

pub next_state : (k k' : World) (c : ℕ) → NextCaller k k' → world_get c k' ≡ world_get c k
next_state k k' c (n, m, ps, e) = rw e refl

pub next_grow :
    (rt : Rt) (k' : World) → NextCaller rt.kernel k' → world_blocks.Extends rt (default k')
unfolding default
next_grow rt k' (n, m, ps, e) i a h = rw e h

pub same_kernel : (rt rt' : Rt) → rt.kernel ≡ rt'.kernel → world_blocks.Extends rt rt'
same_kernel rt rt' e i a h = rw (← e) h

abbrev pub world_chain : Chain world_syscalls world_store world_blocks
world_chain = record {
  Between = NextCaller;
  writes_grow = world_writes_grow;
  between_root = next_root;
  between_state = next_state;
  between_grow = next_grow;
  same_blocks = same_kernel;
}
