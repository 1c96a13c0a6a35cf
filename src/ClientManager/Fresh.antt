-- ===== src/ClientManager/Fresh.antt =====
-- A new manager is in order.
use scalability_engineering.Prelude.{◌≡◌, []}
use scalability_engineering.Prelude.GoMap.{empty}
use scalability_engineering.HashMap
use scalability_engineering.HashMap.{HashMap}

-- No binding, and nothing that could be one.
abbrev IsBare : {K V : Type 0} → HashMap K V → Type 0
IsBare h = (h.keys ≡ []) × (h.values ≡ []) × (h.index_map ≡ empty)
