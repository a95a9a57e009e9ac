-- ===== src/Tests/Contents.antt =====
-- The theorems on typed identifiers, typed addresses and the actor's blockstore at concrete
-- inputs.
use fvm_utils.Base.{
  ℕ, ◌≡◌, refl, true, none, some, List, [], ◌∷◌, String, Result, ok, err, arith, inl, length, ◌++◌,
  get_elem?,
}
use fvm_utils.Platform.{ErrorNumber, not_found, platform_codes}
use fvm_utils.Downcast.{AnyError, message}
use fvm_utils.Hamt.{Contents, put_entry, make_map_with_root_and_bitwidth}
use fvm_utils.TCid.{load, modify, modify_loaded}
use fvm_utils.TCid.Laws.{modify-Stored}
use fvm_utils.TCid.Map
use fvm_utils.TCid.Map.{hamt_content}
use fvm_utils.TAddress.{
  TAddress, AddressFormat, id_type, bls_type, serialize, deserialize, serialize_key,
  deserialize_key, is_compatible, is_variant, try_from,
}
use fvm_utils.TAddress.Laws.{deserialize-serialize_address, deserialize_compatible}
use fvm_utils.Blockstore.{Ipld, get, put, put_keyed, compare_keys}
use fvm_utils.Blockstore.Laws.{get-put_keyed}
use fvm_utils.Example.{User}
use fvm_utils.Tests.Concrete.{toy, ToyAddress, id_address, bls_address}
use fvm_utils.Tests.Logs.{get_elem?-last}
use fvm_utils.Tests.World.{Rt, world_users, world_setting, fresh_world, fresh_runtime, logged}

abbrev nobody : Contents User
nobody k = none

abbrev five : User
five = record { name = "five"; owner = id_address 5 }

-- a closure on a map of users that puts one, and one that fails
abbrev put_five : Contents User → Rt → Result (Unit {0}) AnyError × Contents User × Rt
put_five m s = (ok tt, put_entry m (5 ∷ []) (some five), s)

abbrev refuse : Contents User → Rt → Result (Unit {0}) AnyError × Contents User × Rt
refuse m s = (err (message "no"), nobody, s)

abbrev before : Rt
before = record fresh_runtime { kernel = record fresh_world { maps = nobody ∷ [] } }

abbrev after : Rt
after = record fresh_runtime {
  kernel = record fresh_world { maps = nobody ∷ put_entry nobody (5 ∷ []) (some five) ∷ [] };
}

put_five-Has :
    (i i' : Contents User) (s : Rt)
    → i ≡ nobody
    → put_five i before ≡ (ok tt, i', s)
    → i' ≡ put_entry nobody (5 ∷ []) (some five)
put_five-Has i i' s h e = ground (arith, h)

modify-Stored_example :
    (get_elem? (logged after) 1 ≡ some (put_entry nobody (5 ∷ []) (some five)))
    × ((i : Contents User) × (i ≡ nobody)
        × (Map.maybe_load world_setting.names world_users 5 (record { cid = 0 }) before
            ≡ ok (some i))
        × ((put_five i before).0 ≡ ok tt))
unfolding modify modify_loaded load Map.maybe_load Map.found_map Map.flush
    make_map_with_root_and_bitwidth
modify-Stored_example =
    modify-Stored world_setting.names (hamt_content world_setting.names world_users 5) put_five
      (record { cid = 0 }) (record { cid = 1 }) before after tt nobody
      (put_entry nobody (5 ∷ []) (some five)) put_five-Has refl refl

-- What addresses and texts are written as; every text is that of the address 4.
pub data ToyWire : Type 0 where
  address_wire : ToyAddress → ToyWire
  string_wire : String → ToyWire

abbrev read_address : ToyWire → Result ToyAddress String
read_address (address_wire a) = ok a
read_address (string_wire s) = err "no address"

abbrev read_string : ToyWire → Result String String
read_string (address_wire a) = err "no text"
read_string (string_wire s) = ok s

abbrev write_address : ToyAddress → Result ToyWire String
write_address a = ok (address_wire a)

abbrev write_string : String → Result ToyWire String
write_string s = ok (string_wire s)

read-write_address : (a : ToyAddress) (w : ToyWire) → write_address a ≡ ok w → read_address w ≡ ok a
read-write_address a w e = let same : address_wire a ≡ w = cc e in rw (← same) refl

read-write_string : (s : String) (w : ToyWire) → write_string s ≡ ok w → read_string w ≡ ok s
read-write_string s w e = let same : string_wire s ≡ w = cc e in rw (← same) refl

abbrev toy_format : AddressFormat ToyWire String
toy_format = record {
  serialize_address = write_address;
  deserialize_address = read_address;
  serialize_string = write_string;
  deserialize_string = read_string;
  from_str = λ s. ok (id_address 4);
  custom = λ m. m;
  show_error = λ e. "error";
  debug_error = λ e. "error";
  deserialize-serialize_address = read-write_address;
  deserialize-serialize_string = read-write_string;
}

abbrev address_four : TAddress
address_four = record { addr = id_address 4 }

deserialize-serialize_address_example :
    (deserialize toy_format id_type (address_wire (id_address 4)) ≡ ok address_four)
    × (deserialize_key toy_format id_type (string_wire "t0") ≡ ok address_four)
unfolding serialize serialize_key is_compatible is_variant
deserialize-serialize_address_example =
    deserialize-serialize_address toy_format id_type address_four (address_wire (id_address 4))
      (string_wire "t0") refl refl refl

deserialize_compatible_example : is_compatible bls_type (bls_address 7) ≡ true
unfolding deserialize try_from is_compatible is_variant
deserialize_compatible_example =
    deserialize_compatible toy_format bls_type (record { addr = bls_address 7 })
      (address_wire (bls_address 7)) (inl refl)

-- blocks in a log, an identifier the place of its block
abbrev Log : Type 0
Log = List (List ℕ)

abbrev log_get : ℕ → Log → Result (List ℕ) ErrorNumber
log_get c log = elim (get_elem? log c) [ some bytes ↦ ok bytes | none ↦ err not_found ]

abbrev log_put : ℕ → ℕ → ℕ → List ℕ → Log → Result ℕ ErrorNumber × Log
log_put hash size codec bytes log = (ok (length log), log ++ bytes ∷ [])

log_get-log_put :
    (hash size codec : ℕ) (bytes : List ℕ) (c : ℕ) (k k' : Log)
    → log_put hash size codec bytes k ≡ (ok c, k')
    → log_get c k' ≡ ok bytes
log_get-log_put hash size codec bytes c k k' e = ground (arith, get_elem?-last k bytes)

abbrev log_ipld : Ipld Log ℕ
log_ipld = record {
  ipld_get = log_get;
  ipld_put = log_put;
  hash_code = λ c. 1;
  codec = λ c. 81;
  code_try_from = ok;
  code_into = λ code. code;
  get-put = log_get-log_put;
}

get-put_keyed_example : get log_ipld 1 ((1 ∷ []) ∷ (2 ∷ 3 ∷ []) ∷ []) ≡ ok (some (2 ∷ 3 ∷ []))
unfolding put_keyed put compare_keys
get-put_keyed_example =
    get-put_keyed log_ipld 1 (2 ∷ 3 ∷ []) ((1 ∷ []) ∷ []) ((1 ∷ []) ∷ (2 ∷ 3 ∷ []) ∷ []) refl
