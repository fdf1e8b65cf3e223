-- ===== src/Resp/Value.antt =====
-- resp/resp_value.h, resp/resp_value.cpp and enum/resp_type.h
use cpp_redis.Prelude.{Bool, true, false, Option, none, some, [], Bytes}
use cpp_redis.Prelude.Int.{ℤ, pos}

pub data RespType : Type 0 where
  simple_string error integer bulk_string array null_value : RespType

-- The variant `data`, with its `nullopt` alternative last. The vector of values stands in the block.
mutual
  pub data RespValue : Type 0 where
    resp : RespType → RespData → RespValue

  pub data RespData : Type 0 where
    text : Bytes → RespData
    number : ℤ → RespData
    vector : RespItems → RespData
    nullopt : RespData

  pub data RespItems : Type 0 where
    nil : RespItems
    cons : RespValue → RespItems → RespItems

abbrev pub type_of : RespValue → RespType
type_of (resp t d) = t

abbrev pub data_of : RespValue → RespData
data_of (resp t d) = d

-- RESPValue(RESPType): a string type keeps the variant's first alternative, the empty string.
unfoldable pub of_type : RespType → RespValue
of_type RespType.null_value = resp RespType.null_value nullopt
of_type RespType.integer = resp RespType.integer (number (pos 0))
of_type RespType.array = resp RespType.array (vector nil)
of_type t = resp t (text [])

unfoldable pub is_string : RespValue → Bool
is_string (resp RespType.simple_string d) = true
is_string (resp RespType.error d) = true
is_string (resp RespType.bulk_string d) = true
is_string (resp t d) = false

unfoldable pub is_integer : RespValue → Bool
is_integer (resp RespType.integer d) = true
is_integer (resp t d) = false

unfoldable pub is_bulk_string : RespValue → Bool
is_bulk_string (resp RespType.bulk_string d) = true
is_bulk_string (resp t d) = false

unfoldable pub is_array : RespValue → Bool
is_array (resp RespType.array d) = true
is_array (resp t d) = false

unfoldable pub is_null : RespValue → Bool
is_null (resp RespType.null_value d) = true
is_null (resp t d) = false

unfoldable pub is_error : RespValue → Bool
is_error (resp RespType.error d) = true
is_error (resp t d) = false

unfoldable pub get_string : RespValue → Bytes
get_string (resp t (text s)) = s
get_string (resp t d) = []

unfoldable pub get_integer : RespValue → ℤ
get_integer (resp t (number i)) = i
get_integer (resp t d) = pos 0

-- `std::get` throws `bad_variant_access`, here `none`, where the data is no vector.
unfoldable pub get_array : RespValue → Option RespItems
get_array (resp t (vector items)) = some items
get_array (resp t d) = none
