-- ===== src/Set/Laws.antt =====
-- What the loops over a set have visited.
use fvm_utils.Base.{
  ℕ, ◌≡◌, refl, sym, ap, ◌∙◌, Bool, true, false, Option, none, some, List, [], ◌∷◌, ◌++◌, Result,
  ok, same_list, nat_eq, any, arith, append_assoc, append-nil, Result-cases, inl, inr,
}
use fvm_utils.Downcast.{AnyError}
use fvm_utils.Hamt.{Blocks, Hamt, BytesKey, Contents, find_entry, Distinct, visit_entries}
use fvm_utils.Set.{for_each, push_key, collect_keys}

abbrev pub is_key : BytesKey → List BytesKey → Bool
is_key k keys = any (λ j. same_list nat_eq k j) keys

-- no key is in the list twice
abbrev pub NoneTwice : List BytesKey → Type 0
NoneTwice [] = Unit
NoneTwice (k ∷ keys) = (is_key k keys ≡ false) × NoneTwice keys

-- whether a set has a key with this value
abbrev pub present : Option (Unit {0}) → Bool
present (some u) = true
present none = false

abbrev keys_of : List (BytesKey × Unit {0}) → List BytesKey
keys_of [] = []
keys_of ((k, u) ∷ entries) = k ∷ keys_of entries

is_key-keys_of :
    (k : BytesKey) (entries : List (BytesKey × Unit {0}))
    → is_key k (keys_of entries) ≡ present (find_entry entries k)
unfolding find_entry
is_key-keys_of k [] = refl
is_key-keys_of k ((j, u) ∷ entries) = ground (arith, is_key-keys_of k entries)

keys_of-NoneTwice :
    (entries : List (BytesKey × Unit {0})) → Distinct entries → NoneTwice (keys_of entries)
keys_of-NoneTwice [] h = tt
keys_of-NoneTwice ((k, u) ∷ entries) (once, h) =
    (is_key-keys_of k entries ∙ rw once refl, keys_of-NoneTwice entries h)

abbrev visited : List BytesKey → Result (Unit {0}) AnyError × List BytesKey
visited keys = (ok tt, keys)

module _ {S : Type 0} {blocks : Blocks S} {Cid Error : Type 0}
    (h : Hamt blocks Cid Error (Unit {0})) where
  visit-push_key :
      (entries : List (BytesKey × Unit {0})) (ret : List BytesKey)
      → visit_entries (λ k u e. push_key h k e) entries ret ≡ (ok tt, ret ++ keys_of entries)
  unfolding visit_entries
  visit-push_key [] ret = ap (visited) (sym (append-nil ret))
  visit-push_key ((k, u) ∷ entries) ret =
      visit-push_key entries (ret ++ k ∷ [])
      ∙ ap (visited) (append_assoc ret (k ∷ []) (keys_of entries))

  -- Where `collect_keys` succeeds on a map that holds a set, the keys that it returns are those of the
  -- set, each once.
  pub collect_keys_lists :
      {w : ℕ} (m : h.Map) (f : Contents (Unit {0})) (s : S) (keys : List BytesKey)
      → h.Has w m f s
      → collect_keys h m s ≡ ok keys
      → NoneTwice keys × ((k : BytesKey) → is_key k keys ≡ present (f k))
  unfolding collect_keys for_each
  collect_keys_lists m f s keys has e =
      let (r, collected) = h.for_each (λ k u ret. push_key h k ret) m s [] in
      elim (Result-cases r) [
        | inr (bad, failed) ↦ absurd (ground arith)
        | inl (u, fine) ↦
            let (entries, (once, all), ran) =
              h.for_each-Has (λ k u ret. push_key h k ret) m f s [] collected
                (ap (λ q. (q, collected)) fine) has in
            let pushed = sym (visit-push_key entries []) ∙ ran in
            let same : keys_of entries ≡ keys = ap (λ q. q.1) pushed ∙ (ground arith) in
            rw (← same)
              (keys_of-NoneTwice entries once, λ k. is_key-keys_of k entries ∙ ap present (all k))
      ]
