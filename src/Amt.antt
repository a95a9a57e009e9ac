-- ===== src/Amt.antt =====
-- Arrays over fvm_ipld_amt, a parameter: what an operation that succeeds does to what the array
-- holds, which is a function from indices. The store is that of the maps.
use fvm_utils.Base.{
  ℕ, ◌≡◌, Option, none, some, List, ◌+◌, [], ◌∷◌, Result, ok, err, nat_eq, if◌then◌else◌, length,
  get_elem?,
}
use fvm_utils.Downcast.{AnyError}
use fvm_utils.Hamt.{Blocks}

-- what an array holds
abbrev pub Items : Type 0 → Type 0
Items V = ℕ → Option V

-- a closure on the items of a list in order, from the index `i` on, up to its first error
unfoldable pub visit :
    {V E : Type 0}
    → (ℕ → V → E → Result (Unit {0}) AnyError × E)
    → ℕ
    → List V
    → E
    → Result (Unit {0}) AnyError × E
visit f i [] e = (ok tt, e)
visit f i (x ∷ xs) e =
    let (r, e') = f i x e in
    let rest = visit f (i + 1) xs e' in elim r [ ok _ ↦ rest | err bad ↦ (err bad, e') ]

-- the items with one changed
unfoldable pub put_item : {V : Type 0} → Items V → ℕ → Option V → Items V
put_item f i v j = if nat_eq j i then v else f j

module _ {S : Type 0} (blocks : Blocks S) (Cid Error : Type 0) where
  -- `Amt<V, &BS>`. `Stored c f s` says that the store has the nodes of an array with these items
  -- under `c`.
  pub record Amt (V : Type 0) : Type 1 where
    pub Array : Type 0
    pub new_with_bit_width : ℕ → Array
    pub load : Cid → S → Result Array Error
    pub flush : Array → S → Result Cid Error × Array × S
    pub set : ℕ → V → Array → S → Result (Unit {0}) Error × Array
    pub get : ℕ → Array → S → Result (Option V) Error
    pub count : Array → ℕ
    -- `for_each`, whose closure changes a state of its own
    pub for_each :
        {E : Type 0}
        → (ℕ → V → E → Result (Unit {0}) AnyError × E)
        → Array
        → S
        → E
        → Result (Unit {0}) Error × E
    pub Has : Array → Items V → S → Type 0
    pub Stored : Cid → Items V → S → Type 0
    pub new-Has : (w : ℕ) (s : S) → Has (new_with_bit_width w) (λ i. none) s
    pub load-Has :
        (c : Cid) (a : Array) (f : Items V) (s : S) → load c s ≡ ok a → Stored c f s → Has a f s
    pub flush-Stored :
        (a a' : Array) (f : Items V) (s s' : S) (c : Cid)
        → flush a s ≡ (ok c, a', s')
        → Has a f s
        → Stored c f s' × Has a' f s' × blocks.Extends s s'
    pub set-Has :
        (i : ℕ) (v : V) (a a' : Array) (f : Items V) (s : S)
        → set i v a s ≡ (ok tt, a')
        → Has a f s
        → Has a' (put_item f i (some v)) s
    pub get-Has :
        (i : ℕ) (a : Array) (f : Items V) (s : S) (found : Option V)
        → get i a s ≡ ok found
        → Has a f s
        → found ≡ f i
    -- an array whose items are at the first indices has as many
    pub count-Has : (a : Array) (xs : List V) (s : S) → Has a (get_elem? xs) s → count a ≡ length xs
    -- a `for_each` that succeeds has visited such items in order
    pub for_each-Has :
        {E : Type 0} (f : ℕ → V → E → Result (Unit {0}) AnyError × E) (a : Array) (xs : List V)
        (s : S) (e e' : E)
        → for_each f a s e ≡ (ok tt, e')
        → Has a (get_elem? xs) s
        → visit f 0 xs e ≡ (ok tt, e')
    pub Stored-Extends :
        (c : Cid) (f : Items V) (s s' : S) → blocks.Extends s s' → Stored c f s → Stored c f s'
