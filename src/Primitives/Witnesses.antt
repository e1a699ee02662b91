-- ===== src/Primitives/Witnesses.antt =====
-- Identifiers from concrete bytes.
use evictor.Prelude.{ℕ, ◌≡◌, refl, some, List, [], ◌∷◌, codes}
use evictor.Primitives.{endpoint, new_id}

abbrev bytes : List ℕ
bytes = 0 ∷ 1 ∷ 35 ∷ 36 ∷ 255 ∷ 7 ∷ 8 ∷ 9 ∷ 10 ∷ 11 ∷ 200 ∷ 100 ∷ []

endpoint_id : new_id endpoint (some bytes) ≡ some (codes "ep_ab9adhijklu2")
unfolding new_id
endpoint_id = refl
