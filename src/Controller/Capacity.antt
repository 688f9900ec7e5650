-- ===== src/Controller/Capacity.antt =====
-- `parseCapacityFromRequest` of pkg/driver/utils.go.
use csi_driver_ipfs.Base.{◌^◌, Option, none, some, not, if◌then◌else◌}
use csi_driver_ipfs.Base.Int.{ℤ, pos, is_zero, is_positive}
use csi_driver_ipfs.Csi.{CapacityRange}

-- 1 GiB
abbrev pub default_capacity_bytes : ℤ
default_capacity_bytes = pos (2 ^ 30)

-- `size := required; if size == 0 { size = limit }`
abbrev pub requested_size : CapacityRange → ℤ
requested_size range =
    if is_zero range.required_bytes then range.limit_bytes else range.required_bytes

unfoldable pub parse_capacity_from_request : Option CapacityRange → ℤ → ℤ
parse_capacity_from_request none default_bytes = default_bytes
parse_capacity_from_request (some range) default_bytes =
    if not (is_positive (requested_size range)) then default_bytes else requested_size range
