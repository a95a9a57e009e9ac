-- ===== src/Example/Laws.antt =====
-- What `upsert_user` and `State::new` do to the state and to the map of users.
use fvm_utils.Base.{◌+◌, ◌≡◌, ap, Option, none, some, String, ok, arith, Result-cases, inl, inr}
use fvm_utils.Platform.{Platform, platform_codes}
use fvm_utils.Downcast.{HamtError}
use fvm_utils.Hamt.{Blocks, Hamt, Contents, put_entry, make_empty_map}
use fvm_utils.TCid.{load}
use fvm_utils.TCid.Laws.{loaded}
use fvm_utils.TCid.Map
use fvm_utils.TCid.Map.{hamt_content}
use fvm_utils.Example.{State, User, Setting, new, save, count_call, count_and_save, upsert_user}

module _ ⦃p : Platform⦄ (setting : Setting) {S : Type 0} {blocks : Blocks S}
    (users : Hamt blocks p.Cid HamtError User) where
  -- the store has the map of users of the state
  abbrev pub Users : State → Contents User → S → Type 0
  Users st f s = users.Stored setting.width st.typed_hamt.cid f s

  abbrev pub user_of : p.Address → String → User
  user_of address name = record { name = name; owner = address }

  -- the steps of an `upsert_user` that succeeds
  upsert_parts :
      (address : p.Address) (name : String) (st st' : State) (s s' : S)
      → upsert_user setting users address name st s ≡ (some (ok tt), st', s')
      → (m : users.Map) × (m' : users.Map) × (m'' : users.Map) × (old : Option User) × (load
            setting.names
            (hamt_content setting.names users setting.width)
            st.typed_hamt
            s
          ≡ ok m)
        × (users.set (p.address_bytes address) (user_of address name) m s ≡ (ok old, m'))
        × (Map.flush setting.names users setting.width m' st.typed_hamt s
            ≡ (ok m'', st'.typed_hamt, s'))
        × (st'.call_count ≡ st.call_count + 1)
  unfolding upsert_user count_and_save count_call save
  upsert_parts address name st st' s s' h =
      elim (Result-cases
        (load setting.names (hamt_content setting.names users setting.width) st.typed_hamt s)) [
          | inr (e, bad) ↦ absurd (ground arith)
          | inl (m, read) ↦
              let (r, m') = users.set (p.address_bytes address) (user_of address name) m s in
              elim (Result-cases r) [
                | inr (e, bad) ↦ absurd (ground arith)
                | inl (old, put) ↦
                    elim (Result-cases
                      (Map.flush setting.names users setting.width m' st.typed_hamt s).0) [
                        | inr (e, bad) ↦ absurd (ground arith)
                        | inl (m'', wrote) ↦ (
                          m,
                          m',
                          m'',
                          old,
                          read,
                          ap (λ q. (q, m')) put,
                          ground arith,
                          ground arith,
                        )
                      ]
              ]
        ]

  -- After an `upsert_user` that succeeds on a state whose map of users the store has, the user is
  -- under the bytes of the address with every other entry as it was, the store has that map under the
  -- new identifier, and one more call is counted.
  pub upsert_user_inserts :
      (address : p.Address) (name : String) (st st' : State) (s s' : S) (f : Contents User)
      → Users st f s
      → upsert_user setting users address name st s ≡ (some (ok tt), st', s')
      → Users st' (put_entry f (p.address_bytes address) (some (user_of address name))) s'
        × (st'.call_count ≡ st.call_count + 1)
  upsert_user_inserts address name st st' s s' f held h =
      let (m, m', m'', old, read, put, wrote, counted) = upsert_parts address name st st' s s' h in
      let content = hamt_content setting.names users setting.width in
      let key = p.address_bytes address in
      let f' = put_entry f key (some (user_of address name)) in
      let has =
        Map.load-Has setting.names users setting.width st.typed_hamt m f s
          (loaded setting.names content st.typed_hamt s m read) held in
      let changed = users.set-Has key (user_of address name) m m' f s old put has in
      (
        (Map.flush-Stored setting.names users setting.width m' m'' f' st.typed_hamt st'.typed_hamt s
            s' wrote changed).0,
        counted,
      )

  -- A new state has counted no call, and the store has an empty map of users under its identifier.
  pub new_empty :
      (st : State) (s s' : S)
      → new setting users s ≡ (ok st, s')
      → (st.call_count ≡ 0) × Users st (λ k. none) s'
  unfolding new Map.new_hamt make_empty_map
  new_empty st s s' h =
      elim (Result-cases (users.flush (users.new_with_bit_width setting.width) s).0) [
        | inr (e, bad) ↦ absurd (ground arith)
        | inl (c, wrote) ↦ (
          ground arith,
          (users.flush-Stored (users.new_with_bit_width setting.width)
              (users.flush (users.new_with_bit_width setting.width) s).1 (λ k. none) s s'
              st.typed_hamt.cid (ground arith) (users.new-Has setting.width s)).0,
        )
      ]
