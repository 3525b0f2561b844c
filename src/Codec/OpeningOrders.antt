-- ===== src/Codec/OpeningOrders.antt =====
-- src/types.cpp: the JSON form of `opening_orders`.
use libtd.Base.{◌≡◌, Result, ok, ◌>>=◌, [], ◌∷◌}
use libtd.Base.Int.{IsInt32}
use libtd.Json.{JsonLib, int_at, codec_laws}
use libtd.Types.Account.{OpeningOrders}

-- Every integer field holds a value of its C++ type.
pub record FitsInt (o : OpeningOrders) : Type 0 where
  pub status : IsInt32 o.status
  pub total_records : IsInt32 o.total_records

module _ {D : Type 0} (J : JsonLib D) where
  open J use {Json, of_int, of_bool, of_string, of_double, object}

  unfoldable pub to_json : OpeningOrders → Json
  to_json o = object (("Status", of_int o.status) ∷ ("TotalRecords", of_int o.total_records) ∷ [])

  unfoldable pub from_json : Json → Result OpeningOrders
  from_json j = do
    status ← int_at J j "Status"
    total_records ← int_at J j "TotalRecords"
    ok (record { status = status; total_records = total_records })

  -- What `to_json` writes, `from_json` reads back with no field changed, if the integers fit.
  pub from_json-to_json : (o : OpeningOrders) → FitsInt o → from_json (to_json o) ≡ ok o
  unfolding from_json to_json
  from_json-to_json o h = simp (codec_laws, J, h.status, h.total_records)
