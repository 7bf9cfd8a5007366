-- ===== src/Context/Labels.antt =====
-- The laws of the labels.
use Prim.Native.String.{String}
use text.Mathlib.Text.{◌==◌ as str_eq}
use text.Mathlib.TextEquality.{eq_iff}
use text.Mathlib.TextPositions.{eq_refl}
use agile_pool.Prelude.{
  ◌≡◌, refl, Bool, true, false, ◌||◌, some, List, [], ◌∷◌, arith, if◌then◌else◌,
}
use agile_pool.Prelude.All.{All, All-imp}
use agile_pool.Context.{Value, Labels, get, store, delete, keys, delete_all, reset}

pub get-store :
    (k j : String) (v : Value) (m : Labels)
    → get j (store k v m) ≡ (if str_eq k j then some v else get j m)
unfolding get store
get-store k j v [] = refl
get-store k j v ((i, w) ∷ m) = ground (arith, eq_iff k j, eq_iff i k, eq_iff i j, get-store k j v m)

pub get-store_same : (k : String) (v : Value) (m : Labels) → get k (store k v m) ≡ some v
get-store_same k v m = ground (arith, get-store k k v m, eq_refl k)

abbrev has : String → List String → Bool
has k [] = false
has k (j ∷ ks) = str_eq j k || has k ks

abbrev Covered : List String → Labels → Type 0
Covered ks m = All (λ (e : String × Value). has e.0 ks ≡ true) m

Covered-delete :
    (k : String) (ks : List String) (m : Labels) → Covered (k ∷ ks) m → Covered ks (delete k m)
unfolding delete
Covered-delete k ks [] h = tt
Covered-delete k ks ((j, v) ∷ m) h =
    ground (arith, h.0, eq_iff k j, eq_iff j k, Covered-delete k ks m h.1)

delete_all-Covered : (ks : List String) (m : Labels) → Covered ks m → delete_all ks m ≡ []
unfolding delete_all
delete_all-Covered [] [] h = refl
delete_all-Covered [] (e ∷ m) h = ground (arith, h.0)
delete_all-Covered (k ∷ ks) m h = delete_all-Covered ks (delete k m) (Covered-delete k ks m h)

keys-Covered : (m : Labels) → Covered (keys m) m
unfolding keys
keys-Covered [] = tt
keys-Covered ((k, v) ∷ m) =
    (ground (arith, eq_refl k), All-imp _ _ m (λ e h. ground (arith, h)) (keys-Covered m))

-- `Reset` deletes every label.
pub reset-nil : (m : Labels) → reset m ≡ []
unfolding reset
reset-nil m = delete_all-Covered (keys m) m (keys-Covered m)
