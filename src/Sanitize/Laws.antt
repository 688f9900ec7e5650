-- ===== src/Sanitize/Laws.antt =====
-- A sanitized name is short and made of lower case letters, digits and hyphens, and is a fixed point.
use csi_driver_ipfs.Base.{
  ℕ, zero, suc, ◌≤◌, ◌≡◌, refl, ap, Bool, true, ◌&&◌, ◌||◌, [], ◌∷◌, map, arith, length, take,
  length-take, take_all, All, leb, ◌==◌, ◌∙◌,
}
use csi_driver_ipfs.Text.{Text, is_empty}
use csi_driver_ipfs.Sanitize.{to_lower, replace_char, max_len, sanitize_volume_id}

-- `[a-z0-9\-]`
abbrev pub is_safe : ℕ → Bool
is_safe c = (leb b'a' c && leb c b'z') || (leb b'0' c && leb c b'9') || c == b'-'

abbrev pub IsSafe : ℕ → Type 0
IsSafe c = is_safe c ≡ true

abbrev clean_char : ℕ → ℕ
clean_char c = replace_char (to_lower c)

clean_char-IsSafe : (c : ℕ) → IsSafe (clean_char c)
unfolding replace_char to_lower
clean_char-IsSafe c = ground arith

clean_char_of_safe : (c : ℕ) → IsSafe c → clean_char c ≡ c
unfolding replace_char to_lower
clean_char_of_safe c h = ground arith

abbrev clean_chars : Text → Text
clean_chars s = map replace_char (map to_lower s)

take-clean_chars-IsSafe : (n : ℕ) (s : Text) → All IsSafe (take n (clean_chars s))
take-clean_chars-IsSafe zero s = tt
take-clean_chars-IsSafe (suc n) [] = tt
take-clean_chars-IsSafe (suc n) (c ∷ s) = (clean_char-IsSafe c, take-clean_chars-IsSafe n s)

clean_chars_of_safe : (s : Text) → All IsSafe s → clean_chars s ≡ s
clean_chars_of_safe [] h = refl
clean_chars_of_safe (c ∷ s) (h, hs) = cc (clean_char_of_safe c h, clean_chars_of_safe s hs)

pub sanitize_volume_id-IsSafe : (name : Text) → All IsSafe (sanitize_volume_id name)
unfolding sanitize_volume_id
sanitize_volume_id-IsSafe name = take-clean_chars-IsSafe max_len name

pub length-sanitize_volume_id : (name : Text) → length (sanitize_volume_id name) ≤ max_len
unfolding sanitize_volume_id
length-sanitize_volume_id name = omega (arith, length-take max_len (clean_chars name))

pub is_empty-sanitize_volume_id : (name : Text) → is_empty (sanitize_volume_id name) ≡ is_empty name
unfolding sanitize_volume_id
is_empty-sanitize_volume_id [] = refl
is_empty-sanitize_volume_id (c ∷ s) = refl

-- A sanitized name has at most 128 characters, all of them lower case letters, digits or hyphens,
-- and is empty only if the name was. A text that is such a name already is left as it is.
pub sanitize_volume_id_normal :
    (name s : Text)
    → All IsSafe s
    → length s ≤ max_len
    → All IsSafe (sanitize_volume_id name)
      × (length (sanitize_volume_id name) ≤ max_len)
      × (is_empty (sanitize_volume_id name) ≡ is_empty name)
      × (sanitize_volume_id s ≡ s)
unfolding sanitize_volume_id
sanitize_volume_id_normal name s safe short = (
  sanitize_volume_id-IsSafe name,
  length-sanitize_volume_id name,
  is_empty-sanitize_volume_id name,
  ap (take max_len) (clean_chars_of_safe s safe) ∙ take_all max_len s short,
)
