-- ===== src/Session/Fingerprint.antt =====
-- Fingerprints of host keys (src/ssh_session.cpp): their two texts, how the expected one is read, and
-- `verifyHostKey`. Texts are lists of character codes, a hash is a list of bytes.
use esp_reverse_tunneling_li.Prelude.{
  ℕ, ◌+◌, ◌-◌, ◌*◌, ◌/◌, ◌%◌, Bool, true, false, not, ◌&&◌, ◌||◌, Option, none, some, List, [], ◌∷◌,
  ltb, leb, ◌==◌, if◌then◌else◌, length, drop,
}
use esp_reverse_tunneling_li.Env.{Env}
use esp_reverse_tunneling_li.Config.{SshServerConfig}
use esp_reverse_tunneling_li.Config.Text.{starts_with, is_empty_text, same_text}
use esp_reverse_tunneling_li.Session.Lifecycle.{
  KeyType, rsa, dss, ecdsa_256, ecdsa_384, ecdsa_521, ed25519, other_key, SshApi,
}

-- `kHexDigits[n]`
abbrev pub hex_digit : ℕ → ℕ
hex_digit n = if ltb n 10 then 48 + n else 87 + n

unfoldable pub encode_fingerprint_hex : List ℕ → List ℕ
encode_fingerprint_hex [] = []
encode_fingerprint_hex (b ∷ bs) =
    hex_digit (b / 16 % 16) ∷ hex_digit (b % 16) ∷ encode_fingerprint_hex bs

-- `kBase64Table[n]`
abbrev pub base64_digit : ℕ → ℕ
base64_digit n =
    if ltb n 26
    then 65 + n
    else if ltb n 52
    then 71 + n
    else if ltb n 62
    then n - 4
    else if n == 62
    then 43
    else 47

-- '='
abbrev pub pad : ℕ
pad = 61

-- `(a << 16) | (b << 8) | c` on bytes
abbrev pub triple : ℕ → ℕ → ℕ → ℕ
triple a b c = a * 65536 + b * 256 + c

unfoldable pub encode_padded : List ℕ → List ℕ
encode_padded [] = []
encode_padded (a ∷ []) =
    let t = triple a 0 0 in
    base64_digit (t / 262144 % 64) ∷ base64_digit (t / 4096 % 64) ∷ pad ∷ pad ∷ []
encode_padded (a ∷ b ∷ []) =
    let t = triple a b 0 in
    base64_digit (t / 262144 % 64)
    ∷ base64_digit (t / 4096 % 64)
    ∷ base64_digit (t / 64 % 64)
    ∷ pad
    ∷ []
encode_padded (a ∷ b ∷ c ∷ rest) =
    let t = triple a b c in
    base64_digit (t / 262144 % 64)
    ∷ base64_digit (t / 4096 % 64)
    ∷ base64_digit (t / 64 % 64)
    ∷ base64_digit (t % 64)
    ∷ encode_padded rest

-- The last character goes if it is '=' and so on: what is left of a text behind one character.
abbrev pub strip_onto : ℕ → List ℕ → List ℕ
strip_onto x [] = if x == pad then [] else x ∷ []
strip_onto x (y ∷ ys) = x ∷ y ∷ ys

unfoldable pub strip_padding : List ℕ → List ℕ
strip_padding [] = []
strip_padding (x ∷ xs) = strip_onto x (strip_padding xs)

unfoldable pub encode_fingerprint_base64 : List ℕ → List ℕ
unfolding encode_padded strip_padding
encode_fingerprint_base64 bs = strip_padding (encode_padded bs)

-- `isxdigit`
abbrev pub is_xdigit : ℕ → Bool
is_xdigit c = (leb 48 c && leb c 57) || (leb 65 c && leb c 70) || (leb 97 c && leb c 102)

unfoldable pub all_xdigits : List ℕ → Bool
all_xdigits [] = true
all_xdigits (c ∷ cs) = is_xdigit c && all_xdigits cs

unfoldable pub is_valid_hex_fingerprint : List ℕ → Bool
unfolding all_xdigits
is_valid_hex_fingerprint text = (length text == 64) && all_xdigits text

-- `replace(c, "")`
unfoldable pub remove_char : ℕ → List ℕ → List ℕ
remove_char c [] = []
remove_char c (x ∷ xs) = let rest = remove_char c xs in if x == c then rest else x ∷ rest

unfoldable pub to_lower : List ℕ → List ℕ
to_lower [] = []
to_lower (x ∷ xs) = (if leb 65 x && leb x 90 then x + 32 else x) ∷ to_lower xs

abbrev pub is_space : ℕ → Bool
is_space c = (c == 32) || (leb 9 c && leb c 13)

unfoldable pub trim_start : List ℕ → List ℕ
trim_start [] = []
trim_start (x ∷ xs) = let rest = trim_start xs in if is_space x then rest else x ∷ xs

abbrev pub trim_onto : ℕ → List ℕ → List ℕ
trim_onto x [] = if is_space x then [] else x ∷ []
trim_onto x (y ∷ ys) = x ∷ y ∷ ys

unfoldable pub trim_end : List ℕ → List ℕ
trim_end [] = []
trim_end (x ∷ xs) = trim_onto x (trim_end xs)

unfoldable pub trim : List ℕ → List ℕ
unfolding trim_start trim_end
trim text = trim_end (trim_start text)

-- `substring(indexOf(':') + 1)`, where there is a ':'
unfoldable pub after_colon : List ℕ → List ℕ
after_colon [] = []
after_colon (x ∷ xs) = let rest = after_colon xs in if x == 58 then xs else rest

-- "sha256:"
abbrev pub lower_prefix : List ℕ
lower_prefix = 115 ∷ 104 ∷ 97 ∷ 50 ∷ 53 ∷ 54 ∷ 58 ∷ []

-- "SHA256:"
abbrev pub upper_prefix : List ℕ
upper_prefix = 83 ∷ 72 ∷ 65 ∷ 50 ∷ 53 ∷ 54 ∷ 58 ∷ []

-- What is done to an expected fingerprint in base64.
unfoldable pub clean_base64 : List ℕ → List ℕ
unfolding trim remove_char
clean_base64 text =
    let t = trim text in
    let bare = if starts_with upper_prefix t || starts_with lower_prefix t then drop 7 t else t in
    remove_char pad (remove_char 10 (remove_char 13 (remove_char 32 bare)))

-- What is compared: whether it is base64, and the text.
unfoldable pub comparable : List ℕ → Bool × List ℕ
unfolding clean_base64 trim remove_char to_lower after_colon is_valid_hex_fingerprint
comparable expected =
    let raw = remove_char 10 (remove_char 13 (trim expected)) in
    let candidate = to_lower (remove_char 58 (remove_char 32 raw)) in
    if starts_with lower_prefix (to_lower raw)
    then (true, clean_base64 (after_colon raw))
    else if is_valid_hex_fingerprint candidate
    then (false, remove_char 58 (remove_char 32 (to_lower candidate)))
    else (true, clean_base64 raw)

unfoldable pub fingerprint_matches : Bool × List ℕ → List ℕ → Bool
unfolding encode_fingerprint_base64 encode_fingerprint_hex
fingerprint_matches (true, text) hash = same_text text (encode_fingerprint_base64 hash)
fingerprint_matches (false, text) hash = same_text text (encode_fingerprint_hex hash)

unfoldable pub key_type_name : KeyType → List ℕ
key_type_name rsa = 115 ∷ 115 ∷ 104 ∷ 45 ∷ 114 ∷ 115 ∷ 97 ∷ []
key_type_name dss = 115 ∷ 115 ∷ 104 ∷ 45 ∷ 100 ∷ 115 ∷ 115 ∷ []
key_type_name ecdsa_256 =
    101 ∷ 99 ∷ 100 ∷ 115 ∷ 97 ∷ 45 ∷ 115 ∷ 104 ∷ 97 ∷ 50 ∷ 45 ∷ 110 ∷ 105 ∷ 115 ∷ 116 ∷ 112 ∷ 50
    ∷ 53 ∷ 54 ∷ []
key_type_name ecdsa_384 =
    101 ∷ 99 ∷ 100 ∷ 115 ∷ 97 ∷ 45 ∷ 115 ∷ 104 ∷ 97 ∷ 50 ∷ 45 ∷ 110 ∷ 105 ∷ 115 ∷ 116 ∷ 112 ∷ 51
    ∷ 56 ∷ 52 ∷ []
key_type_name ecdsa_521 =
    101 ∷ 99 ∷ 100 ∷ 115 ∷ 97 ∷ 45 ∷ 115 ∷ 104 ∷ 97 ∷ 50 ∷ 45 ∷ 110 ∷ 105 ∷ 115 ∷ 116 ∷ 112 ∷ 53
    ∷ 50 ∷ 49 ∷ []
key_type_name ed25519 = 115 ∷ 115 ∷ 104 ∷ 45 ∷ 101 ∷ 100 ∷ 50 ∷ 53 ∷ 53 ∷ 49 ∷ 57 ∷ []
key_type_name other_key = 117 ∷ 110 ∷ 107 ∷ 110 ∷ 111 ∷ 119 ∷ 110 ∷ []

-- The checks behind the reading of the key, by its type and its hash.
unfoldable pub check_key : SshServerConfig → Option KeyType → Option (List ℕ) → Bool
unfolding key_type_name comparable fingerprint_matches
check_key c none hash = false
check_key c (some k) none = false
check_key c (some k) (some hash) =
    if not (is_empty_text c.host_key_type) && not (same_text c.host_key_type (key_type_name k))
    then false
    else if is_empty_text c.expected_host_key_fingerprint
    then true
    else fingerprint_matches (comparable c.expected_host_key_fingerprint) hash

module _ (env : Env) (ssh : SshApi env) where
  unfoldable pub key_locked : ℕ → SshServerConfig → Bool × env.World → Bool × env.World
  unfolding check_key
  key_locked h c (false, w) = (false, w)
  key_locked h c (true, w) = (check_key c (ssh.hostkey h w) (ssh.hostkey_hash h w), env.unlock w)

  unfoldable pub verify_host_key : ℕ → SshServerConfig → env.World → Bool × env.World
  unfolding key_locked
  verify_host_key h c w =
      let result = key_locked h c (env.lock 200 w) in
      if not c.verify_host_key then (true, w) else result
