-- ===== src/Common/Names/Laws.antt =====
-- The searches through the name tables of src/common/enums.cpp find each name of a table.
use smarty.Base.{ℕ, zero, suc, ◌≡◌, refl, codes, get_or}
use smarty.Common.Names.{
  device_event_type_names, device_event_type_of, device_event_type_by_name, target_type_names,
  target_type_of, target_type_by_name, index_by_name,
}

-- The name at each index of both tables leads back to the value with that number, and what is in no
-- table, here for an index behind its end, to the unknown value.
pub by_name-names :
    (i : ℕ)
    → (device_event_type_by_name (get_or device_event_type_names i (codes "?"))
        ≡ device_event_type_of i)
      × (target_type_by_name (get_or target_type_names i (codes "?")) ≡ target_type_of i)
unfolding device_event_type_by_name target_type_by_name index_by_name
by_name-names zero = (refl, refl)
by_name-names (suc zero) = (refl, refl)
by_name-names (suc (suc zero)) = (refl, refl)
by_name-names (suc (suc (suc zero))) = (refl, refl)
by_name-names (suc (suc (suc (suc i)))) = (refl, refl)
