-- ===== src/Codec/AlertList.antt =====
-- src/types.cpp: the JSON form of `alert_list`.
use libtd.Base.{◌≡◌, Result, ok, ◌>>=◌, [], ◌∷◌}
use libtd.Base.Int.{IsInt32}
use libtd.Json.{JsonLib, int_at, codec_laws}
use libtd.Types.Account.{AlertList}

-- Every integer field holds a value of its C++ type.
pub record FitsInt (a : AlertList) : Type 0 where
  pub total_records : IsInt32 a.total_records

module _ {D : Type 0} (J : JsonLib D) where
  open J use {Json, of_int, of_bool, of_string, of_double, object}

  unfoldable pub to_json : AlertList → Json
  to_json a = object (("TotalRecords", of_int a.total_records) ∷ [])

  unfoldable pub from_json : Json → Result AlertList
  from_json j = do
    total_records ← int_at J j "TotalRecords"
    ok (record { total_records = total_records })

  -- What `to_json` writes, `from_json` reads back with no field changed, if the integers fit.
  pub from_json-to_json : (a : AlertList) → FitsInt a → from_json (to_json a) ≡ ok a
  unfolding from_json to_json
  from_json-to_json a h = simp (codec_laws, J, h.total_records)
