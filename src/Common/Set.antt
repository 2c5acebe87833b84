-- ===== src/Common/Set.antt =====
-- A JavaScript `Set` of strings: the texts in insertion order, each once.
use Prim.Native.String.{String}
use mathlib.Core.Path.{◌≡◌}
use mathlib.Core.Bool.{Bool, ◌||◌}
use mathlib.Core.List.{List, [], ◌∷◌, ◌++◌}
use native.Mathlib.Omega.{arith}
use xrpl_registrar.Common.Tests.{if◌then◌else◌}
use xrpl_registrar.Common.Text.{eq, eq_iff, one_of}

-- `set.add(text)`
unfoldable pub add : String → List String → List String
add s set = if one_of s set then set else set ++ s ∷ []

-- `new Set(texts)` added to a set, and the set of a list.
unfoldable pub add_each : List String → List String → List String
add_each [] set = set
add_each (s ∷ ss) set = add_each ss (add s set)

pub one_of-append :
    (a : String) (ss ts : List String) → one_of a (ss ++ ts) ≡ (one_of a ss || one_of a ts)
one_of-append a [] ts = ground arith
one_of-append a (s ∷ ss) ts = ground (arith, one_of-append a ss ts)

pub one_of_same :
    (a s : String) (set : List String) → eq a s ≡ Bool.true → one_of a set ≡ one_of s set
one_of_same a s set h = ground (arith, eq_iff a s)

pub one_of-add :
    (a s : String) (set : List String) → one_of a (add s set) ≡ (eq a s || one_of a set)
unfolding add
one_of-add a s set = ground (arith, one_of-append a set (s ∷ []), one_of_same a s set)

pub one_of-add_each :
    (a : String) (ss set : List String) → one_of a (add_each ss set) ≡ (one_of a ss || one_of a set)
unfolding add_each
one_of-add_each a [] set = ground arith
one_of-add_each a (s ∷ ss) set =
    ground (arith, one_of-add_each a ss (add s set), one_of-add a s set)
