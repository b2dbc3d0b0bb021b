-- ===== src/Deck/Maps.antt =====
-- The maps of the Go code as lists of keys and values.
use pet.Base.{◌≡◌, refl, String, List, [], ◌∷◌, some, if◌then◌else◌, str_eq, arith}
use text.Mathlib.TextEquality.{eq_iff}
use pet.Deck.{lookup, insert}

-- `ground` is given `eq_iff` at each pair of texts that is compared.
pub lookup-insert {ℓ} :
    {V : Type ℓ} (j k : String) (v : V) (m : List (String × V))
    → lookup j (insert k v m) ≡ (if str_eq k j then some v else lookup j m)
unfolding lookup insert
lookup-insert j k v [] = refl
lookup-insert j k v ((i, w) ∷ m) =
    ground (arith, eq_iff k j, eq_iff i k, eq_iff i j, lookup-insert j k v m)
