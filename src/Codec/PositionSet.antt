-- ===== src/Codec/PositionSet.antt =====
-- src/types.cpp: the JSON form of `position_set`.
use libtd.Base.{◌≡◌, Result, ok, ◌>>=◌, [], ◌∷◌, map, All, traverse, traverse-map}
use libtd.Base.Int.{IsInt32}
use libtd.Json.{JsonLib, int_at, vector_at, codec_laws}
use libtd.Types.Account.{PositionSet}
use libtd.Codec.PositionRecord

-- Every integer, those of the records included, holds a value of its C++ type.
pub record FitsInt {D : Type 0} (s : PositionSet D) : Type 0 where
  pub records : All PositionRecord.FitsInt s.records
  pub status : IsInt32 s.status
  pub total_records : IsInt32 s.total_records

module _ {D : Type 0} (J : JsonLib D) where
  open J use {Json, of_int, of_array, object}

  unfoldable pub to_json : PositionSet D → Json
  to_json s = object (
      ("Records", of_array (map (PositionRecord.to_json J) s.records))
      ∷ ("Status", of_int s.status)
      ∷ ("TotalRecords", of_int s.total_records)
      ∷ [])

  unfoldable pub from_json : Json → Result (PositionSet D)
  from_json j = do
    records ← vector_at J (PositionRecord.from_json J) j "Records"
    status ← int_at J j "Status"
    total_records ← int_at J j "TotalRecords"
    ok (record { records = records; status = status; total_records = total_records })

  records_back :
      (s : PositionSet D)
      → FitsInt s
      → traverse (PositionRecord.from_json J) (map (PositionRecord.to_json J) s.records)
        ≡ ok s.records
  records_back s h =
      traverse-map (PositionRecord.from_json J) (PositionRecord.to_json J) PositionRecord.FitsInt
        (PositionRecord.from_json-to_json J) s.records h.records

  -- The set is read back with its records in order, if the integers fit.
  pub from_json-to_json : (s : PositionSet D) → FitsInt s → from_json (to_json s) ≡ ok s
  unfolding from_json to_json
  from_json-to_json s h = simp (codec_laws, J, records_back s h, h.status, h.total_records)
