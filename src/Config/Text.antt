-- ===== src/Config/Text.antt =====
-- What the configuration uses of String, and `validateSSHKeys` (src/ssh_config.cpp).
use esp_reverse_tunneling_li.Prelude.{
  ℕ, ◌≡◌, refl, sym, ap, ap₂, ◌≢◌, ◌↔◌, ◌⊎◌, inl, inr, Bool, true, false, ◌&&◌, ◌||◌, List, [], ◌∷◌,
  ◌++◌, arith, ◌==◌, if◌then◌else◌, Bool-cases,
}
use esp_reverse_tunneling_li.Config.Iff.{both_iff, either_iff, orelse_iff, unless_iff}
use esp_reverse_tunneling_li.Config.{SshConfiguration}

unfoldable pub starts_with : List ℕ → List ℕ → Bool
starts_with [] text = true
starts_with (p ∷ ps) [] = false
starts_with (p ∷ ps) (x ∷ xs) = (p == x) && starts_with ps xs

-- `text.indexOf(pattern) != -1`
unfoldable pub contains : List ℕ → List ℕ → Bool
unfolding starts_with
contains pattern [] = starts_with pattern []
contains pattern (x ∷ xs) = starts_with pattern (x ∷ xs) || contains pattern xs

-- `==` on String
unfoldable pub same_text : List ℕ → List ℕ → Bool
same_text [] [] = true
same_text (x ∷ xs) (y ∷ ys) = (x == y) && same_text xs ys
same_text _ _ = false

pub same_text→eq : (xs ys : List ℕ) → same_text xs ys ≡ true → xs ≡ ys
unfolding same_text
same_text→eq [] [] t = refl
same_text→eq (x ∷ xs) [] t = cc
same_text→eq [] (y ∷ ys) t = cc
same_text→eq (x ∷ xs) (y ∷ ys) t =
    let head : x ≡ y = ground (arith, t) in
    ap₂ (λ a rest. a ∷ rest) head (same_text→eq xs ys (ground (arith, t)))

unfoldable pub is_empty_text : List ℕ → Bool
is_empty_text [] = true
is_empty_text (x ∷ xs) = false

-- "-----BEGIN"
abbrev pub begin_marker : List ℕ
begin_marker = 45 ∷ 45 ∷ 45 ∷ 45 ∷ 45 ∷ 66 ∷ 69 ∷ 71 ∷ 73 ∷ 78 ∷ []

-- "-----END"
abbrev pub end_marker : List ℕ
end_marker = 45 ∷ 45 ∷ 45 ∷ 45 ∷ 45 ∷ 69 ∷ 78 ∷ 68 ∷ []

-- "ssh-"
abbrev pub ssh_prefix : List ℕ
ssh_prefix = 115 ∷ 115 ∷ 104 ∷ 45 ∷ []

-- "ecdsa-"
abbrev pub ecdsa_prefix : List ℕ
ecdsa_prefix = 101 ∷ 99 ∷ 100 ∷ 115 ∷ 97 ∷ 45 ∷ []

unfoldable pub validate_ssh_keys : SshConfiguration → Bool
unfolding contains is_empty_text
validate_ssh_keys c =
    let private_key = c.ssh_config.private_key_data in
    let public_key = c.ssh_config.public_key_data in
    let private_ok =
      if is_empty_text private_key
      then false
      else contains begin_marker private_key && contains end_marker private_key in
    let public_ok =
      if is_empty_text public_key
      then true
      else starts_with ssh_prefix public_key || starts_with ecdsa_prefix public_key in
    if c.mutex then private_ok && public_ok else false

starts_with→append :
    (ps xs : List ℕ) → starts_with ps xs ≡ true → (rest : List ℕ) × (xs ≡ ps ++ rest)
unfolding starts_with
starts_with→append [] xs t = (xs, refl)
starts_with→append (p ∷ ps) [] t = cc
starts_with→append (p ∷ ps) (x ∷ xs) t =
    let same_head : p ≡ x = ground (arith, t) in
    let (rest, e) = starts_with→append ps xs (ground (arith, t)) in
    (rest, ap₂ (λ y ys. y ∷ ys) (sym same_head) e)

append→starts_with : (ps rest : List ℕ) → starts_with ps (ps ++ rest) ≡ true
unfolding starts_with
append→starts_with [] rest = refl
append→starts_with (p ∷ ps) rest = ground (arith, append→starts_with ps rest)

contains→split :
    (ps xs : List ℕ)
    → contains ps xs ≡ true
    → (before : List ℕ) × (rest : List ℕ) × (xs ≡ before ++ (ps ++ rest))
unfolding contains
contains→split ps [] t = let (rest, e) = starts_with→append ps [] t in ([], rest, e)
contains→split ps (x ∷ xs) t = elim (Bool-cases (starts_with ps (x ∷ xs))) [
  | inl s ↦ let (rest, e) = starts_with→append ps (x ∷ xs) s in ([], rest, e)
  | inr s ↦
      let (before, rest, e) = contains→split ps xs (ground (arith, s, t)) in
      (x ∷ before, rest, ap (◌∷◌ x) e)
]

split→contains : (ps before rest : List ℕ) → contains ps (before ++ (ps ++ rest)) ≡ true
unfolding contains
split→contains [] [] [] = refl
split→contains [] [] (x ∷ rest) = refl
split→contains (p ∷ ps) [] rest = simp (append→starts_with (p ∷ ps) rest) refl
split→contains ps (x ∷ before) rest = ground (arith, split→contains ps before rest)

-- A text with the marker somewhere in it.
unfoldable pub Holds : List ℕ → List ℕ → Type 0
Holds marker text = (before : List ℕ) × (rest : List ℕ) × (text ≡ before ++ (marker ++ rest))

unfoldable pub StartsWith : List ℕ → List ℕ → Type 0
StartsWith prefix text = (rest : List ℕ) × (text ≡ prefix ++ rest)

pub contains_iff : (ps xs : List ℕ) → (contains ps xs ≡ true) ↔ Holds ps xs
unfolding Holds
contains_iff ps xs =
    (contains→split ps xs, λ (before, rest, e). rw e (split→contains ps before rest))

pub starts_with_iff : (ps xs : List ℕ) → (starts_with ps xs ≡ true) ↔ StartsWith ps xs
unfolding StartsWith
starts_with_iff ps xs = (starts_with→append ps xs, λ (rest, e). rw e (append→starts_with ps rest))

pub is_empty_text_iff : (xs : List ℕ) → (is_empty_text xs ≡ true) ↔ (xs ≡ [])
unfolding is_empty_text
is_empty_text_iff [] = (λ t. refl, λ e. refl)
is_empty_text_iff (x ∷ xs) = (λ t. absurd (cc), λ e. absurd (cc))

-- With a mutex, `validateSSHKeys` accepts exactly a private key that is not empty and has both the marker
-- of its begin and that of its end in it, together with a public key that is empty or starts with
-- `ssh-` or with `ecdsa-`.
pub validate_ssh_keys_iff :
    (c : SshConfiguration)
    → c.mutex ≡ true
    → (validate_ssh_keys c ≡ true) ↔ (
        (c.ssh_config.private_key_data ≢ [])
        × Holds begin_marker c.ssh_config.private_key_data
        × Holds end_marker c.ssh_config.private_key_data
        × ((c.ssh_config.public_key_data ≡ [])
            ⊎ StartsWith ssh_prefix c.ssh_config.public_key_data
            ⊎ StartsWith ecdsa_prefix c.ssh_config.public_key_data))
unfolding validate_ssh_keys
validate_ssh_keys_iff c t =
    let (f, f') =
      both_iff
        (unless_iff (is_empty_text_iff c.ssh_config.private_key_data) (
          both_iff (contains_iff begin_marker c.ssh_config.private_key_data)
            (contains_iff end_marker c.ssh_config.private_key_data)))
        (orelse_iff (is_empty_text_iff c.ssh_config.public_key_data) (
          either_iff (starts_with_iff ssh_prefix c.ssh_config.public_key_data)
            (starts_with_iff ecdsa_prefix c.ssh_config.public_key_data))) in
    simp t (λ v. let ((n, (b, e)), p) = f v in (n, b, e, p), λ (n, b, e, p). f' ((n, (b, e)), p))
