-- ===== src/Iap/Stores.antt =====
-- apps/iap/stores: the two store adapters, over the answers of the stores' clients.
pub mod Apple
pub mod Google
use backend_live_canvas.Prelude.{
  ℕ, zero, suc, String, Bool, true, false, Option, none, some, List, [], ◌∷◌, exists, str_eq,
  truthy, if◌then◌else◌, ◌||◌, not,
}

-- `[i for i in {...} if i]`: each text that is not empty, once.
unfoldable pub id_set : List String → List String
id_set [] = []
id_set (i ∷ is) =
    let rest = id_set is in
    if not (truthy i) || exists (λ j. str_eq j i) rest then rest else i ∷ rest

-- `_ms_to_dt`, in milliseconds: zero counts as absent.
unfoldable pub ms_to_dt : Option ℕ → Option ℕ
ms_to_dt none = none
ms_to_dt (some zero) = none
ms_to_dt (some (suc ms)) = some (suc ms)
