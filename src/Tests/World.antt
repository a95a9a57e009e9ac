-- ===== src/Tests/World.antt =====
-- A kernel for the example actor: it keeps a log of maps of users and a log of states, and an
-- identifier is a place in one of them.
use fvm_utils.Base.{
  ℕ, zero, suc, ◌≡◌, refl, false, Option, none, some, List, [], ◌∷◌, ◌++◌, String, Result, ok, pos,
  length, get_elem?, arith, leb, nat_eq, if◌then◌else◌,
}
use fvm_utils.Platform.{IpldBlock}
use fvm_utils.ActorError.{StateUpdateError}
use fvm_utils.Downcast.{AnyError, HamtError, message}
use fvm_utils.Hamt.{Blocks, Hamt, Contents}
use fvm_utils.Fvm.Kernel.{Syscalls, CborStore}
use fvm_utils.Fvm.Instance.{FvmRuntime}
use fvm_utils.Example.{State, User, Setting}
use fvm_utils.Tests.Concrete.{toy, id_address, toy_id, secp_address}
use fvm_utils.Tests.LogMaps.{log_blocks, log_maps}
use fvm_utils.Tests.Logs.{get_elem?-last}

pub record World : Type 0 where
  pub sender : ℕ
  pub method : ℕ
  pub params : Option IpldBlock
  pub root : ℕ
  pub maps : List (Contents User)
  pub states : List State

abbrev pub world_set_root : ℕ → World → Result (Unit {0}) StateUpdateError × World
world_set_root c k = (ok tt, record k { root = c })

abbrev pub world_root : World → Result ℕ String
world_root k = ok k.root

pub world_root-set_root :
    (c : ℕ) (k k' : World) → world_set_root c k ≡ (ok tt, k') → world_root k' ≡ ok c
world_root-set_root c k k' e = ground arith

-- the root of the empty array is 0
abbrev pub world_syscalls : Syscalls World
world_syscalls = record {
  msg_caller = λ k. k.sender;
  method_number = λ k. k.method;
  params_raw = λ n k. some k.params;
  self_root = world_root;
  set_root = world_set_root;
  sys_send = λ to m ps v k. (ok (record { exit_code = m; return_data = ps }), k);
  sys_resolve_address = λ a k. toy_id a;
  sys_get_actor_code_cid = λ a k. toy_id a;
  sys_get_builtin_actor_type = λ c k. if leb c 12 then some (pos c) else none;
  sys_create_actor = λ n c k. (ok tt, k);
  self_destruct = λ a k. (ok tt, k);
  next_actor_address = λ k. (secp_address 1, k);
  put_block = λ c bs k. (some 3, k);
  empty_arr_cid = 0;
  no_data_block_id = 0;
  is_success = λ c. nat_eq c 0;
  panic_info = λ m. m;
  self_root-set_root = world_root-set_root;
}

-- the place 0 is that of the empty array
abbrev pub state_at : ℕ → List State → Option State
state_at zero log = none
state_at (suc c) log = get_elem? log c

abbrev pub world_put : State → World → Result ℕ String × World
world_put x k = (ok (suc (length k.states)), record k { states = k.states ++ x ∷ [] })

abbrev pub world_get : ℕ → World → Result (Option State) String
world_get c k = ok (state_at c k.states)

pub world_get-put :
    (x : State) (c : ℕ) (k k' : World) → world_put x k ≡ (ok c, k') → world_get c k' ≡ ok (some x)
world_get-put x c k k' e = ground (arith, get_elem?-last k.states x)

pub world_get-set_root :
    (c d : ℕ) (k k' : World) → world_set_root d k ≡ (ok tt, k') → world_get c k' ≡ world_get c k
world_get-set_root c d k k' e = ground arith

abbrev pub world_store : CborStore world_syscalls State
world_store = record {
  put_cbor = world_put;
  get_cbor = world_get;
  get-put = world_get-put;
  get-set_root = world_get-set_root;
}

abbrev pub Rt : Type 0
Rt = FvmRuntime World

-- the log of maps in the kernel of a runtime
abbrev pub logged : Rt → List (Contents User)
logged s = s.kernel.maps

abbrev pub with_logged : List (Contents User) → Rt → Rt
with_logged log s = record s { kernel = record s.kernel { maps = log } }

abbrev pub world_blocks : Blocks Rt
world_blocks = log_blocks logged with_logged (λ log s. refl)

abbrev pub world_users : Hamt world_blocks ℕ HamtError User
world_users = log_maps logged with_logged (λ log s. refl)

abbrev pub show_any : AnyError → String
show_any (message s) = s
show_any other = "error"

abbrev pub world_setting : Setting
world_setting = record {
  texts = record { show = show_any; show-message = λ s. refl };
  names = record {
    show_cid = λ c. "cid";
    type_name = "TCid";
    debug_hamt = λ e. "hamt";
    show_amt = λ e. "amt";
  };
  usize_max = 4_294_967_295;
  usize_max_lem = omega arith;
  width = 5;
  init_actor_addr = id_address 1;
  persist_number = 3_000_000_000;
  decode_param = λ b. ok (record { name = "sample" });
}

-- the init actor calls the constructor before there is a state
abbrev pub fresh_world : World
fresh_world = record { sender = 1; method = 1; params = none; root = 0; maps = []; states = [] }

abbrev pub fresh_runtime : Rt
fresh_runtime = record { kernel = fresh_world; in_transaction = false; caller_validated = false }
