-- ===== src/Config/Iff.antt =====
-- Boolean tests that hold exactly when a statement does, put together.
use esp_reverse_tunneling_li.Prelude.{
  ◌≡◌, refl, sym, ◌↔◌, ◌⊎◌, inl, inr, Bool, true, false, ◌&&◌, ◌||◌, arith, if◌then◌else◌,
  Bool-cases,
}

both_split : (a b : Bool) → (a && b) ≡ true → (a ≡ true) × (b ≡ true)
both_split a b t = (ground arith, ground arith)

pub both_iff :
    {a b : Bool} {P Q : Type 0} → (a ≡ true) ↔ P → (b ≡ true) ↔ Q → ((a && b) ≡ true) ↔ (P × Q)
both_iff {a} {b} (f, f') (g, g') =
    (λ t. let (x, y) = both_split a b t in (f x, g y), λ (p, q). rw (f' p, g' q) refl)

pub either_iff :
    {a b : Bool} {P Q : Type 0} → (a ≡ true) ↔ P → (b ≡ true) ↔ Q → ((a || b) ≡ true) ↔ (P ⊎ Q)
either_iff {a} {b} {P} {Q} (f, f') (g, g') = (to a refl, from)
  where
    to : (c : Bool) → c ≡ a → (c || b) ≡ true → P ⊎ Q
    to true e t = inl (f (sym e))
    to false e t = inr (g t)

    from : P ⊎ Q → (a || b) ≡ true
    from (inl p) = rw (f' p) refl
    from (inr q) = rw (g' q) (ground arith)

-- A test behind one that refuses.
pub unless_iff :
    {a b : Bool} {P Q : Type 0}
    → (a ≡ true) ↔ P
    → (b ≡ true) ↔ Q
    → ((if a then false else b) ≡ true) ↔ ((P → ⊥) × Q)
unless_iff {a} {b} {P} {Q} (f, f') (g, g') = to_from a refl
  where
    to_from : (c : Bool) → c ≡ a → ((if c then false else b) ≡ true) ↔ ((P → ⊥) × Q)
    to_from true e = (λ t. absurd (cc), λ (n, q). absurd (n (f (sym e))))
    to_from false e = (λ t. (λ p. let h : a ≡ true = f' p in absurd (cc), g t), λ (n, q). g' q)

pub orelse_iff :
    {a b : Bool} {P Q : Type 0}
    → (a ≡ true) ↔ P
    → (b ≡ true) ↔ Q
    → ((if a then true else b) ≡ true) ↔ (P ⊎ Q)
orelse_iff {a} {b} {P} {Q} f g = elim (Bool-cases a) [
  | inl t ↦ rw t (λ e. inl (f.0 t), λ q. refl)
  | inr t ↦ rw t (λ e. inr (g.0 e), from t)
]
  where
    from : a ≡ false → P ⊎ Q → b ≡ true
    from t (inl p) = let h : a ≡ true = f.1 p in absurd (cc)
    from t (inr q) = g.1 q
