-- ===== src/Session/Readback.antt =====
-- The texts of a fingerprint can be read back, so `verifyHostKey` accepts only the key that was expected.
use esp_reverse_tunneling_li.Prelude.{
  ℕ, ◌+◌, ◌-◌, ◌*◌, ◌/◌, ◌%◌, ◌<◌, ◌≡◌, refl, sym, ap, ap₂, ◌∙◌, ◌≢◌, inl, inr, Bool, true, false,
  Option, none, some, List, [], ◌∷◌, arith, ltb, ◌==◌, if◌then◌else◌, Bool-cases,
}
use esp_reverse_tunneling_li.Env.{Env}
use esp_reverse_tunneling_li.Config.{SshServerConfig}
use esp_reverse_tunneling_li.Config.Text.{is_empty_text, same_text→eq}
use esp_reverse_tunneling_li.Session.Lifecycle.{KeyType, SshApi}
use esp_reverse_tunneling_li.Session.Fingerprint.{
  hex_digit, encode_fingerprint_hex, base64_digit, pad, triple, encode_padded, strip_onto,
  strip_padding, encode_fingerprint_base64, comparable, fingerprint_matches, key_type_name,
  check_key, key_locked, verify_host_key,
}

abbrev pub AllBytes : List ℕ → Type 0
AllBytes [] = Unit
AllBytes (b ∷ bs) = (b < 256) × AllBytes bs

-- The value of a hexadecimal digit, and the bytes of a text of such digits.
abbrev pub hex_value : ℕ → ℕ
hex_value c = if ltb c 58 then c - 48 else c - 87

unfoldable pub decode_hex : List ℕ → List ℕ
decode_hex [] = []
decode_hex (x ∷ []) = []
decode_hex (x ∷ y ∷ rest) = (hex_value x * 16 + hex_value y) ∷ decode_hex rest

hex_value-hex_digit : (n : ℕ) → n < 16 → hex_value (hex_digit n) ≡ n
hex_value-hex_digit n h = ground arith

-- The hexadecimal text of bytes, read back, gives the bytes.
pub decode_hex-encode : (bs : List ℕ) → AllBytes bs → decode_hex (encode_fingerprint_hex bs) ≡ bs
unfolding decode_hex encode_fingerprint_hex
decode_hex-encode [] a = refl
decode_hex-encode (b ∷ bs) (h, a) =
    ap₂ (λ x xs. x ∷ xs)
      (rw
        (
          hex_value-hex_digit (b / 16 % 16) (omega arith),
          hex_value-hex_digit (b % 16) (omega arith),
        )
        (omega (arith, h)))
      (decode_hex-encode bs a)

-- The value of a digit of base64.
abbrev pub base64_value : ℕ → ℕ
base64_value c =
    if c == 43
    then 62
    else if c == 47
    then 63
    else if ltb c 58
    then c + 4
    else if ltb c 91
    then c - 65
    else c - 71

-- The bytes of a text of base64 without padding.
unfoldable pub decode_base64 : List ℕ → List ℕ
decode_base64 [] = []
decode_base64 (w ∷ []) = []
decode_base64 (w ∷ x ∷ []) = (base64_value w * 4 + base64_value x / 16) ∷ []
decode_base64 (w ∷ x ∷ y ∷ []) =
    (base64_value w * 4 + base64_value x / 16)
    ∷ (base64_value x % 16 * 16 + base64_value y / 4)
    ∷ []
decode_base64 (w ∷ x ∷ y ∷ z ∷ rest) =
    (base64_value w * 4 + base64_value x / 16)
    ∷ (base64_value x % 16 * 16 + base64_value y / 4)
    ∷ (base64_value y % 4 * 64 + base64_value z)
    ∷ decode_base64 rest

base64_value-digit : (n : ℕ) → n < 64 → base64_value (base64_digit n) ≡ n
base64_value-digit n h = ground arith

not_pad : (n : ℕ) → n < 64 → (base64_digit n == pad) ≡ false
not_pad n h = ground arith

strip_digit : (n : ℕ) (xs : List ℕ) → n < 64 → strip_onto (base64_digit n) xs ≡ base64_digit n ∷ xs
strip_digit n [] h = rw (not_pad n h) refl
strip_digit n (x ∷ xs) h = refl

-- The three bytes of four digits.
first_byte :
    (a b c : ℕ)
    → a < 256
    → b < 256
    → c < 256
    → (triple a b c / 262144 % 64) * 4 + (triple a b c / 4096 % 64) / 16 ≡ a
first_byte a b c p q r = omega (arith, p, q, r)

second_byte :
    (a b c : ℕ)
    → a < 256
    → b < 256
    → c < 256
    → (triple a b c / 4096 % 64) % 16 * 16 + (triple a b c / 64 % 64) / 4 ≡ b
second_byte a b c p q r = omega (arith, p, q, r)

third_byte :
    (a b c : ℕ)
    → a < 256
    → b < 256
    → c < 256
    → (triple a b c / 64 % 64) % 4 * 64 + triple a b c % 64 ≡ c
third_byte a b c p q r = omega (arith, p, q, r)

value_at : (t k : ℕ) → base64_value (base64_digit (t / k % 64)) ≡ t / k % 64
value_at t k = base64_value-digit (t / k % 64) (omega arith)

-- The text of base64 of bytes, read back, gives the bytes; its end has no padding.
pub decode_base64-encode :
    (bs : List ℕ) → AllBytes bs → decode_base64 (encode_fingerprint_base64 bs) ≡ bs
unfolding decode_base64 encode_fingerprint_base64 encode_padded strip_padding
decode_base64-encode [] u = refl
decode_base64-encode (a ∷ []) (p, u) =
    let t = triple a 0 0 in
    rw (strip_digit (t / 4096 % 64) [] (omega arith), value_at t 262144, value_at t 4096)
      (ap (λ x. x ∷ []) (first_byte a 0 0 p (omega arith) (omega arith)))
decode_base64-encode (a ∷ b ∷ []) (p, (q, u)) =
    let t = triple a b 0 in
    rw
      (
        strip_digit (t / 64 % 64) [] (omega arith),
        value_at t 262144,
        value_at t 4096,
        value_at t 64,
      )
      (ap₂ (λ x y. x ∷ y ∷ []) (first_byte a b 0 p q (omega arith))
        (second_byte a b 0 p q (omega arith)))
decode_base64-encode (a ∷ b ∷ c ∷ rest) (p, (q, (r, u))) =
    let t = triple a b c in
    rw
      (
        strip_digit (t % 64) (strip_padding (encode_padded rest)) (omega arith),
        value_at t 262144,
        value_at t 4096,
        value_at t 64,
        base64_value-digit (t % 64) (omega arith),
      )
      (ap₂ (λ x xs. x ∷ xs) (first_byte a b c p q r)
        (ap₂ (λ x xs. x ∷ xs) (second_byte a b c p q r)
          (ap₂ (λ x xs. x ∷ xs) (third_byte a b c p q r) (decode_base64-encode rest u))))

-- The bytes that an expected fingerprint stands for.
unfoldable pub expected_bytes : List ℕ → List ℕ
expected_bytes expected =
    let (is_base64, text) = comparable expected in
    if is_base64 then decode_base64 text else decode_hex text

matches_lem :
    (b : Bool) (text hash : List ℕ)
    → AllBytes hash
    → fingerprint_matches (b, text) hash ≡ true
    → hash ≡ (if b then decode_base64 text else decode_hex text)
unfolding fingerprint_matches
matches_lem true text hash a t = sym (
    ap decode_base64 (same_text→eq text (encode_fingerprint_base64 hash) t)
    ∙ decode_base64-encode hash a)
matches_lem false text hash a t =
    sym
      (ap decode_hex (same_text→eq text (encode_fingerprint_hex hash) t) ∙ decode_hex-encode hash a)

-- A key that passes the checks: its type is the one that is asked for, if any, and its hash is the
-- expected one.
pub record Expected (c : SshServerConfig) (k : KeyType) (hash : List ℕ) : Type 0 where
  pub right_type : c.host_key_type ≢ [] → c.host_key_type ≡ key_type_name k
  pub right_hash : hash ≡ expected_bytes c.expected_host_key_fingerprint

empty_text : (text : List ℕ) → is_empty_text text ≡ true → text ≡ []
unfolding is_empty_text
empty_text [] t = refl
empty_text (x ∷ xs) t = cc

check_key_lem :
    (c : SshServerConfig) (k : Option KeyType) (hash : Option (List ℕ))
    → c.expected_host_key_fingerprint ≢ []
    → ((bytes : List ℕ) → hash ≡ some bytes → AllBytes bytes)
    → check_key c k hash ≡ true
    → (key : KeyType) × (bytes : List ℕ) × (k ≡ some key)
      × (hash ≡ some bytes)
      × Expected c key bytes
unfolding check_key expected_bytes
check_key_lem c none hash e a t = cc
check_key_lem c (some k) none e a t = cc
check_key_lem c (some k) (some bytes) e a t = (
  k,
  bytes,
  refl,
  refl,
  record {
    right_type = λ n.
        let given : is_empty_text c.host_key_type ≡ false =
          elim (Bool-cases (is_empty_text c.host_key_type)) [
            | inl b ↦ absurd (n (empty_text c.host_key_type b))
            | inr b ↦ b
          ] in
        same_text→eq c.host_key_type (key_type_name k) (ground (arith, t, given));
    right_hash =
        let named : is_empty_text c.expected_host_key_fingerprint ≡ false =
          elim (Bool-cases (is_empty_text c.expected_host_key_fingerprint)) [
            | inl b ↦ absurd (e (empty_text c.expected_host_key_fingerprint b))
            | inr b ↦ b
          ] in
        let (b, text) = comparable c.expected_host_key_fingerprint in
        matches_lem b text bytes (a bytes refl) (ground (arith, t, named));
  },
)

module _ (env : Env) (ssh : SshApi env) where
  key_locked_lem :
      (h : ℕ) (c : SshServerConfig) (r : Bool × env.World)
      → c.expected_host_key_fingerprint ≢ []
      → ((w : env.World) (bytes : List ℕ) → ssh.hostkey_hash h w ≡ some bytes → AllBytes bytes)
      → (key_locked env ssh h c r).0 ≡ true
      → (key : KeyType) × (bytes : List ℕ) × (ssh.hostkey h r.1 ≡ some key)
        × (ssh.hostkey_hash h r.1 ≡ some bytes)
        × Expected c key bytes
  unfolding key_locked
  key_locked_lem h c (false, w) e a t = cc
  key_locked_lem h c (true, w) e a t =
      check_key_lem c (ssh.hostkey h w) (ssh.hostkey_hash h w) e (a w) t

  -- With the verification on and a fingerprint configured, and hashes that are lists of bytes: if
  -- `verifyHostKey` accepts then the server showed a key, the type of that key is the configured one, if
  -- any, and its hash is the list of bytes that the configured fingerprint stands for.
  pub verify_host_key_lem :
      (h : ℕ) (c : SshServerConfig) (w : env.World)
      → c.verify_host_key ≡ true
      → c.expected_host_key_fingerprint ≢ []
      → ((w : env.World) (bytes : List ℕ) → ssh.hostkey_hash h w ≡ some bytes → AllBytes bytes)
      → (verify_host_key env ssh h c w).0 ≡ true
      → let (locked, w1) = env.lock 200 w in
        (key : KeyType) × (bytes : List ℕ) × (ssh.hostkey h w1 ≡ some key)
        × (ssh.hostkey_hash h w1 ≡ some bytes)
        × Expected c key bytes
  unfolding verify_host_key
  verify_host_key_lem h c w v e a t = key_locked_lem h c (env.lock 200 w) e a (simp v at t)
