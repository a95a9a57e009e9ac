-- ===== src/Base/Text.antt =====
-- The formats of the source's messages.
use Prim.Native.String.{String, ◌++◌}
use mathlib.Core.Path.{◌≡◌, sym, ◌∙◌, ap}
use text.Mathlib.TextLemmas.{append_assoc}

-- `format!("{}{}", a, b)`, and `a + b` on strings
abbrev pub concat : String → String → String
concat a b = a ++ b

-- `format!("{}: {}", context, msg)`
unfoldable pub prefixed : String → String → String
prefixed context msg = context ++ (": " ++ msg)

pub concat_assoc : (a b c : String) → concat (concat a b) c ≡ concat a (concat b c)
concat_assoc a b c = append_assoc a b c

pub prefixed-prefixed : (a b c : String) → prefixed a (prefixed b c) ≡ prefixed (prefixed a b) c
unfolding prefixed
prefixed-prefixed a b c =
    sym
      (append_assoc a (": " ++ b) (": " ++ c) ∙ ap (λ t. a ++ t) (append_assoc ": " b (": " ++ c)))
