-- ===== src/Sanitize.antt =====
-- `sanitizeVolumeID` of pkg/driver/utils.go, and the volume ID that CreateVolume builds from it.
pub mod Laws
use csi_driver_ipfs.Base.{ℕ, ◌+◌, Bool, ◌&&◌, ◌||◌, ◌++◌, map, take, ltb, leb, ◌==◌, if◌then◌else◌}
use csi_driver_ipfs.Text.{Text, lit}

-- `unicode.ToLower`. Two letters outside ASCII, İ and the kelvin sign, have an ASCII lower case.
-- The lower case of the other letters outside ASCII is not in ASCII, and the next step writes `-`
-- for the one as for the other, so they are left as they are.
unfoldable pub to_lower : ℕ → ℕ
to_lower c =
    if leb b'A' c && leb c b'Z'
    then c + 32
    else if c == 0x130
    then b'i'
    else if c == 0x212a
    then b'k'
    else c

-- `[a-zA-Z0-9\-]`
unfoldable pub is_kept : ℕ → Bool
is_kept c =
    (leb b'a' c && leb c b'z')
    || (leb b'A' c && leb c b'Z')
    || (leb b'0' c && leb c b'9')
    || c == b'-'

-- `sanitizeRe.ReplaceAllString(s, "-")` at one character.
unfoldable pub replace_char : ℕ → ℕ
unfolding is_kept
replace_char c = if is_kept c then c else b'-'

abbrev pub max_len : ℕ
max_len = 128

unfoldable pub sanitize_volume_id : Text → Text
sanitize_volume_id name = take max_len (map replace_char (map to_lower name))

unfoldable pub volume_id : Text → Text
volume_id name = lit "ipfs-volume-" ++ sanitize_volume_id name
