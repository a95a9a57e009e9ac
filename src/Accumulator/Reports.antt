-- ===== src/Accumulator/Reports.antt =====
-- What is found in a collection after a sequence of reports through accumulators that are derived from
-- one of them.
use fvm_utils.Base.{
  ◌≡◌, ◌≢◌, refl, sym, ap, ◌∙◌, Bool, true, false, List, [], ◌∷◌, ◌++◌, map, append_assoc,
  append-nil, String, Result, ok, err, concat, concat_assoc, prefixed, arith,
}
use fvm_utils.Accumulator.{
  Heap, MessageAccumulator, with_prefix, messages, add, require, require_no_error,
}

-- the three ways to report
pub data Report (E : Type 0) : Type 0 where
  adds : String → Report E
  requires : Bool → String → Report E
  requires_no_error : Result (Unit {0}) E → String → Report E

-- the accumulator with prefixes added one after the other
abbrev pub derived : MessageAccumulator → List String → MessageAccumulator
derived acc [] = acc
derived acc (p ∷ path) = derived (with_prefix acc p) path

module _ {E : Type 0} (show : E → String) where
  unfoldable pub report : MessageAccumulator → Report E → Heap → Heap
  unfolding add require require_no_error
  report acc (adds m) h = add acc m h
  report acc (requires b m) h = require acc b m h
  report acc (requires_no_error r m) h = require_no_error show acc r m h

  -- reports one after the other, each through the accumulator that its prefixes give
  unfoldable pub report_all : MessageAccumulator → List (List String × Report E) → Heap → Heap
  unfolding report
  report_all acc [] h = h
  report_all acc ((path, r) ∷ rs) h = report_all acc rs (report (derived acc path) r h)

  -- the messages that a report has, none where what is required holds
  unfoldable pub said : Report E → List String
  said (adds m) = m ∷ []
  said (requires true m) = []
  said (requires false m) = m ∷ []
  said (requires_no_error (ok v) m) = []
  said (requires_no_error (err e) m) = prefixed m (show e) ∷ []

  -- a message behind its prefixes, the outermost first
  abbrev pub behind : List String → String → String
  behind [] m = m
  behind (p ∷ path) m = concat p (behind path m)

  -- the messages of a sequence of reports, in order
  unfoldable pub said_all : String → List (List String × Report E) → List String
  unfolding said
  said_all prefix [] = []
  said_all prefix ((path, r) ∷ rs) =
      map (λ m. concat prefix (behind path m)) (said r) ++ said_all prefix rs

  derived-prefix :
      (acc : MessageAccumulator) (path : List String) (m : String)
      → concat (derived acc path).prefix m ≡ concat acc.prefix (behind path m)
  unfolding with_prefix
  derived-prefix acc [] m = refl
  derived-prefix acc (p ∷ path) m =
      derived-prefix (with_prefix acc p) path m ∙ concat_assoc acc.prefix p (behind path m)

  derived-msgs :
      (acc : MessageAccumulator) (path : List String) → (derived acc path).msgs ≡ acc.msgs
  unfolding with_prefix
  derived-msgs acc [] = refl
  derived-msgs acc (p ∷ path) = derived-msgs (with_prefix acc p) path

  report_lem :
      (acc other : MessageAccumulator) (r : Report E) (h : Heap)
      → (messages acc (report acc r h) ≡ messages acc h ++ map (concat acc.prefix) (said r))
        × (other.msgs ≢ acc.msgs → messages other (report acc r h) ≡ messages other h)
  unfolding report said add require require_no_error messages
  report_lem acc other (adds m) h = (ground arith, λ ne. ground arith)
  report_lem acc other (requires true m) h = (sym (append-nil (messages acc h)), λ ne. refl)
  report_lem acc other (requires false m) h = (ground arith, λ ne. ground arith)
  report_lem acc other (requires_no_error (ok v) m) h =
      (sym (append-nil (messages acc h)), λ ne. refl)
  report_lem acc other (requires_no_error (err e) m) h = (ground arith, λ ne. ground arith)

  same_collection :
      (acc : MessageAccumulator) (path : List String) (h : Heap)
      → messages (derived acc path) h ≡ messages acc h
  unfolding messages
  same_collection acc path h = ap h.cell (derived-msgs acc path)

  one_report :
      (acc : MessageAccumulator) (path : List String) (r : Report E) (h : Heap)
      → messages acc (report (derived acc path) r h)
        ≡ messages acc h ++ map (λ m. concat acc.prefix (behind path m)) (said r)
  one_report acc path r h =
      let d = derived acc path in
      sym (same_collection acc path (report d r h))
      ∙ (report_lem d d r h).0
      ∙ ap (λ ms. ms ++ map (concat d.prefix) (said r)) (same_collection acc path h)
      ∙ ap (λ f. messages acc h ++ map f (said r)) (λ i m. derived-prefix acc path m i)

  -- After any sequence of reports through accumulators that are derived from one by prefixes, its collection has
  -- the messages from before and then those of the reports that had one, in order, each behind the prefixes of its
  -- accumulator from the outermost on; all the derived accumulators read them, and an accumulator over
  -- another collection reads what it read before.
  pub reports_logged :
      (acc other : MessageAccumulator) (path : List String) (rs : List (List String × Report E))
      (h : Heap)
      → other.msgs ≢ acc.msgs
      → let h' = report_all acc rs h in
        (messages acc h' ≡ messages acc h ++ said_all acc.prefix rs)
        × (messages (derived acc path) h' ≡ messages acc h')
        × (messages other h' ≡ messages other h)
  unfolding report_all said_all
  reports_logged acc other path [] h ne =
      (sym (append-nil (messages acc h)), same_collection acc path h, refl)
  reports_logged acc other path ((at, r) ∷ rs) h ne =
      let next = report (derived acc at) r h in
      let (logged, read, apart) = reports_logged acc other path rs next ne in
      (
        logged
            ∙ ap (λ ms. ms ++ said_all acc.prefix rs) (one_report acc at r h)
            ∙ append_assoc (messages acc h) (map (λ m. concat acc.prefix (behind at m)) (said r))
                (said_all acc.prefix rs),
        read,
        apart ∙ (report_lem (derived acc at) other r h).1 (λ e. ne (e ∙ derived-msgs acc at)),
      )
