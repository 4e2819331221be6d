-- ===== src/Prelude/Texts.antt =====
-- Text as its UTF-8 bytes, with the tests of `str` that the program uses.
use Prim.Native.Nat.{ℕ}
use Prim.Native.Char.{code}
use Prim.Native.String.{String}
use mathlib.Core.Path.{◌≡◌, refl}
use mathlib.Core.Logic.{◌↔◌, ◌≢◌}
use mathlib.Core.Bool.{Bool, true, false, ◌&&◌}
use mathlib.Core.Option.{Option, none, some}
use mathlib.Core.List.{List, [], ◌∷◌}
use native.Mathlib.Omega.{arith}
use auru_pm_core.Prelude.Tests.{◌==◌, if◌then◌else◌}

-- A `String` or `str`: its bytes.
abbrev pub Text : Type 0
Text = List ℕ

-- The bytes of an ASCII literal.
abbrev pub codes : String → Text
codes (String.◌∷◌ letter letters) = code letter ∷ codes letters
codes String.[] = []

-- `==` on strings and on byte strings.
unfoldable pub text_eq : Text → Text → Bool
text_eq [] [] = true
text_eq (a ∷ s) (b ∷ t) = (a == b) && text_eq s t
text_eq _ _ = false

pub text_eq_iff : (s t : Text) → (text_eq s t ≡ true) ↔ (s ≡ t)
unfolding text_eq
text_eq_iff [] [] = ground arith
text_eq_iff [] (b ∷ t) = ground arith
text_eq_iff (a ∷ s) [] = ground arith
text_eq_iff (a ∷ s) (b ∷ t) = ground (arith, text_eq_iff s t)

pub text_eq_refl : (s : Text) → text_eq s s ≡ true
text_eq_refl s = (text_eq_iff s s).1 refl

-- `==` on `Option<&str>`.
abbrev pub opt_text_eq : Option Text → Option Text → Bool
opt_text_eq none none = true
opt_text_eq (some s) (some t) = text_eq s t
opt_text_eq _ _ = false

pub opt_text_eq_iff : (a b : Option Text) → (opt_text_eq a b ≡ true) ↔ (a ≡ b)
opt_text_eq_iff none none = ground arith
opt_text_eq_iff none (some t) = ground arith
opt_text_eq_iff (some s) none = ground arith
opt_text_eq_iff (some s) (some t) = ground (arith, text_eq_iff s t)

-- `HashSet<String>` and `BTreeSet<String>`, in the order of insertion, newest first: the program
-- asks for membership, and where it iterates the order does not matter.
abbrev pub contains : List Text → Text → Bool
contains [] k = false
contains (j ∷ s) k = if text_eq j k then true else contains s k

-- A set insertion says whether the element is new; most callers drop that.
abbrev pub insert_text : Text → List Text → List Text
insert_text k s = if contains s k then s else k ∷ s

pub contains-insert_text :
    (k j : Text) (s : List Text)
    → contains (insert_text k s) j ≡ (if text_eq k j then true else contains s j)
contains-insert_text k j s = ground (arith, text_eq_iff k j)

pub text_ne : (s t : Text) → s ≢ t → text_eq s t ≡ false
text_ne s t h = ground (arith, text_eq_iff s t)
