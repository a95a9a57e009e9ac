-- ===== src/Tests/Entries.antt =====
-- Maps for tests that can be visited: a map is the list of its entries, and can only be read.
use fvm_utils.Base.{
  ◌≡◌, refl, sym, ap, ◌∙◌, Bool, Option, none, List, [], Result, ok, err, Result-cases, inl, inr,
  arith,
}
use fvm_utils.Downcast.{AnyError}
use fvm_utils.Hamt.{Blocks, Hamt, BytesKey, Contents, find_entry, Lists, visit_entries}
use fvm_utils.Tests.Maps.{is_some, unflushed}

pub no_entry :
    {A M Error : Type 0} (bad : Error) (a : A) (m m' : M)
    → ◌≡◌ {A = Result A Error × M} (err bad, m) (ok a, m')
    → ⊥
no_entry bad a m m' h = ground arith

module _ {S : Type 0} (blocks : Blocks S) (Cid Error V : Type 0) (closed : AnyError → Error)
    (unsupported : Error) where
  abbrev pub Entries : Type 0
  Entries = List (BytesKey × V)

  abbrev pub visit_all :
      {E : Type 0}
      → (BytesKey → V → E → Result (Unit {0}) AnyError × E)
      → Entries
      → S
      → E
      → Result (Unit {0}) Error × E
  visit_all g m s e =
      let (r, e') = visit_entries g m e in
      elim r [ ok _ ↦ (ok tt, e') | err bad ↦ (err (closed bad), e') ]

  pub visit_all-Lists :
      {E : Type 0} (g : BytesKey → V → E → Result (Unit {0}) AnyError × E) (m : Entries)
      (f : Contents V) (s : S) (e e' : E)
      → visit_all g m s e ≡ (ok tt, e')
      → Lists m f
      → (entries : Entries) × Lists entries f × (visit_entries g entries e ≡ (ok tt, e'))
  visit_all-Lists g m f s e e' h held = elim (Result-cases (visit_entries g m e).0) [
    | inr (bad, failed) ↦ absurd (ground arith)
    | inl (u, fine) ↦ (m, held, ground arith)
  ]

  pub find_in-Lists :
      (k : BytesKey) (m : Entries) (f : Contents V) (found : Option V)
      → ◌≡◌ {A = Result (Option V) Error} (ok (find_entry m k)) (ok found)
      → Lists m f
      → found ≡ f k
  find_in-Lists k m f found e (once, all) =
      let same : find_entry m k ≡ found = cc e in sym same ∙ all k

  pub contains_in-Lists :
      (k : BytesKey) (m : Entries) (f : Contents V) (b : Bool)
      → ◌≡◌ {A = Result Bool Error} (ok (is_some (find_entry m k))) (ok b)
      → Lists m f
      → b ≡ is_some (f k)
  contains_in-Lists k m f b e (once, all) =
      let same : is_some (find_entry m k) ≡ b = cc e in sym same ∙ ap is_some (all k)

  pub empty-Lists : Lists {V = V} [] (λ k. none)
  unfolding find_entry
  empty-Lists = (tt, λ k. refl)

  abbrev pub entry_maps : Hamt blocks Cid Error V
  entry_maps = record {
    Map = Entries;
    new_with_bit_width = λ w. [];
    load_with_bit_width = λ c w s. err unsupported;
    flush = λ m s. (err unsupported, m, s);
    set = λ k v m s. (err unsupported, m);
    get = λ k m s. ok (find_entry m k);
    contains_key = λ k m s. ok (is_some (find_entry m k));
    delete = λ k m s. (err unsupported, m);
    for_each = visit_all;
    Has = λ w m f s. Lists m f;
    Stored = λ w c f s. ⊥;
    new-Has = λ w s. empty-Lists;
    load-Has = λ c w m f s e h. absurd h;
    flush-Stored = λ m m' f s s' c e h. absurd (unflushed unsupported m m' s s' c e);
    set-Has = λ k v m m' f s old e h. absurd (no_entry unsupported old m m' e);
    get-Has = λ k m f s found e h. find_in-Lists k m f found e h;
    contains-Has = λ k m f s b e h. contains_in-Lists k m f b e h;
    delete-Has = λ k m m' f s old e h. absurd (no_entry unsupported old m m' e);
    for_each-Has = visit_all-Lists;
    Has-Extends = λ m f s s' x h. h;
    Stored-Extends = λ c f s s' x h. h;
  }
