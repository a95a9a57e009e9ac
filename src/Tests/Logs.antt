-- ===== src/Tests/Logs.antt =====
-- A store for tests: a log to which values are only added, each identified by its place.
use fvm_utils.Base.{ℕ, zero, suc, ◌≡◌, refl, some, List, [], ◌∷◌, ◌++◌, length, get_elem?, arith}

pub get_elem?-last :
    {A : Type 0} (xs : List A) (x : A) → get_elem? (xs ++ x ∷ []) (length xs) ≡ some x
get_elem?-last [] x = refl
get_elem?-last (y ∷ xs) x = get_elem?-last xs x

pub get_elem?-append :
    {A : Type 0} (xs ys : List A) (i : ℕ) (a : A)
    → get_elem? xs i ≡ some a
    → get_elem? (xs ++ ys) i ≡ some a
get_elem?-append [] ys i a h = ground arith
get_elem?-append (x ∷ xs) ys zero a h = h
get_elem?-append (x ∷ xs) ys (suc i) a h = get_elem?-append xs ys i a h

-- what one log has, the other has at the same place
abbrev pub Prefix : {A : Type 0} → List A → List A → Type 0
Prefix {A} xs ys = (i : ℕ) (a : A) → get_elem? xs i ≡ some a → get_elem? ys i ≡ some a
