-- ===== src/Observer.antt =====
-- device_observer_t of src/common/driver_intf.h, and the `std::set< device_observer_t* >` in which
-- src/server/device and src/driver keep observers: a set without duplicates, walked in the order of
-- the addresses. An observer is its address.
pub mod Laws
use smarty.Base.{ℕ, ltb, ◌==◌, List, [], ◌∷◌, ◌++◌, if◌then◌else◌}

-- The four calls of the interface
pub data Notice : Type 0 where
  light_changed button_pressed sensor_triggered double_click : ℕ → Notice

-- set::insert
unfoldable pub insert : ℕ → List ℕ → List ℕ
insert a [] = a ∷ []
insert a (x ∷ xs) =
    let rest = insert a xs in if ltb a x then a ∷ x ∷ xs else if a == x then x ∷ xs else x ∷ rest

-- set::erase
unfoldable pub erase : ℕ → List ℕ → List ℕ
erase a [] = []
erase a (x ∷ xs) = let rest = erase a xs in if a == x then rest else x ∷ rest
