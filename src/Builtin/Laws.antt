-- ===== src/Builtin/Laws.antt =====
-- Properties of the builtin actor types.
use fvm_utils.Base.{
  ◌≡◌, ◌≢◌, refl, sym, ap, ◌∙◌, ◌↔◌, Bool, true, arith, int_eq, int_eq_iff, ℤ, pos, negsuc,
}
use fvm_utils.Builtin.{ActorType, system, data_cap, as_i32, from_i32}

-- Every type is read back from its discriminant.
pub from_i32-as_i32 : (t : ActorType) → from_i32 (as_i32 t) ≡ t
unfolding from_i32 as_i32
from_i32-as_i32 system = refl
from_i32-as_i32 data_cap = refl
from_i32-as_i32 _ = refl

-- A number that does not read as the data cap type is the discriminant of what it reads as, so only
-- that type stands for more numbers than its own.
pub as_i32-from_i32 : (u : ℤ) → from_i32 u ≢ data_cap → as_i32 (from_i32 u) ≡ u
unfolding from_i32 as_i32
as_i32-from_i32 (pos u) h = ground arith
as_i32-from_i32 (negsuc u) h = absurd (h refl)

-- `==` of the derived `PartialEq`
unfoldable pub type_eq : ActorType → ActorType → Bool
unfolding as_i32
type_eq a b = int_eq (as_i32 a) (as_i32 b)

pub type_eq_iff : (a b : ActorType) → (type_eq a b ≡ true) ↔ (a ≡ b)
unfolding type_eq
type_eq_iff a b = (
  (λ h. sym (from_i32-as_i32 a) ∙ (ap from_i32 ((int_eq_iff _ _).0 h) ∙ from_i32-as_i32 b)),
  λ e. (int_eq_iff _ _).1 (ap as_i32 e),
)
