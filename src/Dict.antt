-- ===== src/Dict.antt =====
-- Go's map[string]string. A missing key reads as "". No code of the driver depends on the order of
-- a map's entries, and a copy of a map is the map.
use csi_driver_ipfs.Base.{◌≡◌, refl, List, [], ◌∷◌, arith, if◌then◌else◌}
use csi_driver_ipfs.Text.{Text, text_eq, text_eq_iff}

abbrev pub Dict : Type 0
Dict = List (Text × Text)

-- m[k]
unfoldable pub get : Text → Dict → Text
get k [] = []
get k ((j, v) ∷ m) = if text_eq j k then v else get k m

-- m[k] = v
unfoldable pub put : Text → Text → Dict → Dict
put k v [] = (k, v) ∷ []
put k v ((j, w) ∷ m) = if text_eq j k then (k, v) ∷ m else (j, w) ∷ put k v m

pub get-put : (k j v : Text) (m : Dict) → get j (put k v m) ≡ (if text_eq k j then v else get j m)
unfolding get put
get-put k j v [] = refl
get-put k j v ((i, w) ∷ m) =
    ground (arith, text_eq_iff k j, text_eq_iff i k, text_eq_iff i j, get-put k j v m)
