-- ===== src/Spec/Cloud/Ec2.antt =====
-- Whether the host is an EC2 instance (spec/isec2_linux.go): by the UUID that the kernel tells, and
-- by a request for the metadata.
use mackerel_agent.Prelude.{
  String, ℕ, zero, suc, ◌+◌, ◌-◌, ◌*◌, ◌/◌, ◌%◌, ◌^◌, Bool, true, false, ◌&&◌, ◌||◌, Option, none,
  some, List, [], ◌∷◌, code, leb, ltb, cut_prefix, is_some, split, hex_digit, if◌then◌else◌,
}
use mackerel_agent.Prelude.Retrier.{Retrier}
use mackerel_agent.Spec.Cloud.{Answer, until_read, is_status_ok}

abbrev ec2_prefix : String → Bool
ec2_prefix uuid = is_some (cut_prefix "ec2" uuid) || is_some (cut_prefix "EC2" uuid)

-- The value of a hexadecimal digit.
unfoldable pub hex_value : ℕ → Option ℕ
hex_value c =
    if leb b'0' c && leb c b'9'
    then some (c - b'0')
    else if leb b'a' c && leb c b'f'
    then some (c - b'a' + 10)
    else if leb b'A' c && leb c b'F'
    then some (c - b'A' + 10)
    else none

-- hex.DecodeString, with the bytes that it has decoded before an error.
unfoldable pub decode_hex : String → List ℕ
unfolding hex_value
decode_hex String.[] = []
decode_hex (String.◌∷◌ c String.[]) = []
decode_hex (String.◌∷◌ c (String.◌∷◌ d s)) =
    let rest = decode_hex s in
    elim (hex_value (code c)) [
      | none ↦ []
      | some high ↦ elim (hex_value (code d)) [ none ↦ [] | some low ↦ (high * 16 + low) ∷ rest ]
    ]

-- binary.Read of a uint32 in little endian order, which leaves 0 where there are too few bytes.
unfoldable pub read_little_endian : List ℕ → ℕ
read_little_endian (b0 ∷ b1 ∷ b2 ∷ b3 ∷ rest) = b0 + b1 * 2 ^ 8 + b2 * 2 ^ 16 + b3 * 2 ^ 24
read_little_endian _ = 0

-- fmt.Sprintf("%x", n), with `s` after it, by at most as many divisions as the first argument says.
unfoldable pub print_hex : ℕ → ℕ → String → String
unfolding hex_digit
print_hex zero n s = s
print_hex (suc k) n s =
    let more = print_hex k (n / 16) (String.◌∷◌ (hex_digit (n % 16)) s) in
    if ltb n 16 then String.◌∷◌ (hex_digit n) s else more

abbrev first_field : List String → String
first_field [] = ""
first_field (field ∷ fields) = field

-- isEC2UUID
unfoldable pub is_ec2_uuid : String → Bool
unfolding decode_hex read_little_endian print_hex
is_ec2_uuid uuid =
    if ec2_prefix uuid
    then true
    else ec2_prefix
        (print_hex 8 (read_little_endian (decode_hex (first_field (split b'-' uuid)))) "")

-- The loop over the files of UUIDs, which cannot be read where there is `none`.
unfoldable pub looks_like_ec2 : List (Option String) → Bool
unfolding is_ec2_uuid
looks_like_ec2 [] = false
looks_like_ec2 (none ∷ files) = looks_like_ec2 files
looks_like_ec2 (some uuid ∷ files) = if is_ec2_uuid uuid then true else looks_like_ec2 files

-- isEC2WithSpecifiedUUIDFiles, unless its context is cancelled.
unfoldable pub is_ec2 : Retrier → List (Option String) → (ℕ → Answer) → Bool
unfolding looks_like_ec2 until_read is_status_ok
is_ec2 retrier uuid_files answers =
    if looks_like_ec2 uuid_files
    then elim (until_read retrier 3 is_status_ok answers) [ none ↦ false | some res ↦ res ]
    else false
