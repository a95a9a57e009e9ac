-- ===== src/Hamt.antt =====
-- runtime/src/lib.rs: maps over fvm_ipld_hamt and their integer keys. The HAMT and the encoding of
-- integers are no code of the repository, so they are parameters: a store that only grows, and maps
-- whose nodes it holds.
pub mod Keys
use fvm_utils.Downcast.{AnyError}
use fvm_utils.Base.{
  ◌∷◌, ℕ, ◌≡◌, Bool, true, false, Option, none, some, List, [], String, same_list, nat_eq, Result,
  ok, err, if◌then◌else◌, map_err,
}

abbrev pub BytesKey : Type 0
BytesKey = List ℕ

-- what a map holds, as a function
abbrev pub Contents : Type 0 → Type 0
Contents V = BytesKey → Option V

-- `unsigned_varint` on u64: `encode` followed by `decode`, which also returns the rest of its input
pub record Varint : Type 0 where
  pub encode_u64 : ℕ → BytesKey
  pub decode_u64 : BytesKey → Result (ℕ × BytesKey) String
  pub decode-encode : (n : ℕ) → decode_u64 (encode_u64 n) ≡ ok (n, [])

-- the blockstore: what was put is not taken away
pub record Blocks (S : Type 0) : Type 1 where
  pub Extends : S → S → Type 0

-- `HAMT_BIT_WIDTH`
abbrev pub hamt_bit_width : ℕ
hamt_bit_width = 5

-- the value of a key in a list of entries
unfoldable pub find_entry : {V : Type 0} → List (BytesKey × V) → BytesKey → Option V
find_entry [] j = none
find_entry ((k, v) ∷ entries) j = if same_list nat_eq j k then some v else find_entry entries j

-- no key is there twice
abbrev pub Distinct : {V : Type 0} → List (BytesKey × V) → Type 0
Distinct [] = Unit
Distinct ((k, v) ∷ entries) = (find_entry entries k ≡ none) × Distinct entries

-- the entries are those of the contents, each once, in any order
abbrev pub Lists : {V : Type 0} → List (BytesKey × V) → Contents V → Type 0
Lists entries f = Distinct entries × ((k : BytesKey) → find_entry entries k ≡ f k)

-- a closure on entries one after the other, up to its first error
unfoldable pub visit_entries :
    {V E : Type 0}
    → (BytesKey → V → E → Result (Unit {0}) AnyError × E)
    → List (BytesKey × V)
    → E
    → Result (Unit {0}) AnyError × E
visit_entries f [] e = (ok tt, e)
visit_entries f ((k, v) ∷ entries) e =
    let (r, e') = f k v e in
    let rest = visit_entries f entries e' in elim r [ ok _ ↦ rest | err bad ↦ (err bad, e') ]

-- the contents with one entry changed
unfoldable pub put_entry : {V : Type 0} → Contents V → BytesKey → Option V → Contents V
put_entry f k v j = if same_list nat_eq j k then v else f j

module _ {S : Type 0} (blocks : Blocks S) (Cid Error : Type 0) where
  -- `Hamt<&BS, V, BytesKey>`: what an operation that succeeds does to the contents of a map in a
  -- store. `Stored w c f s` says that the store has the nodes of a map with these contents and
  -- the bit width `w` under `c`; the width is not in the nodes, so a map is only read right where it is
  -- loaded with the width that it was made with.
  pub record Hamt (V : Type 0) : Type 1 where
    pub Map : Type 0
    pub new_with_bit_width : ℕ → Map
    pub load_with_bit_width : Cid → ℕ → S → Result Map Error
    pub flush : Map → S → Result Cid Error × Map × S
    pub set : BytesKey → V → Map → S → Result (Option V) Error × Map
    pub get : BytesKey → Map → S → Result (Option V) Error
    pub contains_key : BytesKey → Map → S → Result Bool Error
    pub delete : BytesKey → Map → S → Result (Option V) Error × Map
    -- `for_each`, whose closure changes a state of its own
    pub for_each :
        {E : Type 0}
        → (BytesKey → V → E → Result (Unit {0}) AnyError × E)
        → Map
        → S
        → E
        → Result (Unit {0}) Error × E
    -- the contents of a map, and of what is stored under an identifier, with the bit width
    pub Has : ℕ → Map → Contents V → S → Type 0
    pub Stored : ℕ → Cid → Contents V → S → Type 0
    pub new-Has : (w : ℕ) (s : S) → Has w (new_with_bit_width w) (λ k. none) s
    pub load-Has :
        (c : Cid) (w : ℕ) (m : Map) (f : Contents V) (s : S)
        → load_with_bit_width c w s ≡ ok m
        → Stored w c f s
        → Has w m f s
    pub flush-Stored :
        {w : ℕ} (m m' : Map) (f : Contents V) (s s' : S) (c : Cid)
        → flush m s ≡ (ok c, m', s')
        → Has w m f s
        → Stored w c f s' × Has w m' f s' × blocks.Extends s s'
    pub set-Has :
        {w : ℕ} (k : BytesKey) (v : V) (m m' : Map) (f : Contents V) (s : S) (old : Option V)
        → set k v m s ≡ (ok old, m')
        → Has w m f s
        → Has w m' (put_entry f k (some v)) s
    pub get-Has :
        {w : ℕ} (k : BytesKey) (m : Map) (f : Contents V) (s : S) (found : Option V)
        → get k m s ≡ ok found
        → Has w m f s
        → found ≡ f k
    pub contains-Has :
        {w : ℕ} (k : BytesKey) (m : Map) (f : Contents V) (s : S) (b : Bool)
        → contains_key k m s ≡ ok b
        → Has w m f s
        → b ≡ (elim (f k) [ some v ↦ true | none ↦ false ])
    pub delete-Has :
        {w : ℕ} (k : BytesKey) (m m' : Map) (f : Contents V) (s : S) (old : Option V)
        → delete k m s ≡ (ok old, m')
        → Has w m f s
        → (old ≡ f k) × Has w m' (put_entry f k none) s
    -- a `for_each` that succeeds has visited every entry once, in an order of its own
    pub for_each-Has :
        {E : Type 0} {w : ℕ} (g : BytesKey → V → E → Result (Unit {0}) AnyError × E) (m : Map)
        (f : Contents V) (s : S) (e e' : E)
        → for_each g m s e ≡ (ok tt, e')
        → Has w m f s
        → (entries : List (BytesKey × V)) × Lists entries f
          × (visit_entries g entries e ≡ (ok tt, e'))
    pub Has-Extends :
        {w : ℕ} (m : Map) (f : Contents V) (s s' : S)
        → blocks.Extends s s'
        → Has w m f s
        → Has w m f s'
    pub Stored-Extends :
        {w : ℕ} (c : Cid) (f : Contents V) (s s' : S)
        → blocks.Extends s s'
        → Stored w c f s
        → Stored w c f s'

module _ {S : Type 0} {blocks : Blocks S} {Cid Error V : Type 0} (h : Hamt blocks Cid Error V) where
  unfoldable pub make_empty_map : ℕ → h.Map
  make_empty_map bitwidth = h.new_with_bit_width bitwidth

  unfoldable pub make_map_with_root : Cid → S → Result h.Map Error
  make_map_with_root root s = h.load_with_bit_width root hamt_bit_width s

  unfoldable pub make_map_with_root_and_bitwidth : Cid → ℕ → S → Result h.Map Error
  make_map_with_root_and_bitwidth root bitwidth s = h.load_with_bit_width root bitwidth s
