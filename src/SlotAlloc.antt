-- ===== src/SlotAlloc.antt =====
-- channel_alloc (src/channel_slot_alloc.h): the first channel slot that may be taken. The slot type is
-- a parameter with its two fields, as in the template. `none` is the -1 of the source.
mod Tests
use mathlib.Core.Option.{some-injective}
use esp_reverse_tunneling_li.Prelude.{
  ℕ, suc, ◌+◌, ◌-◌, ◌≤◌, ◌≡◌, refl, ◌≢◌, inl, inr, Bool, true, false, not, ◌&&◌, ◌||◌, Option, none,
  some, List, [], ◌∷◌, arith, ltb, ◌==◌, if◌then◌else◌, Bool-cases, get_elem?, take, sub32,
}

abbrev pub finalize_cooldown_ms : ℕ
finalize_cooldown_ms = 50

module _ {S : Type 0} (active : S → Bool) (last_finalize_ms : S → ℕ) where
  -- A slot in use, or one that is still in its cooldown, is passed over.
  abbrev pub is_passed_over : ℕ → ℕ → S → Bool
  is_passed_over now cooldown s =
      active s || (not (last_finalize_ms s == 0) && ltb (sub32 now (last_finalize_ms s)) cooldown)

  unfoldable pub find_from : ℕ → List S → ℕ → ℕ → Option ℕ
  find_from i [] now cooldown = none
  find_from i (s ∷ ss) now cooldown =
      if is_passed_over now cooldown s then find_from (suc i) ss now cooldown else some i

  unfoldable pub find_free_slot : List S → ℕ → ℕ → Option ℕ
  unfolding find_from
  find_free_slot slots now cooldown = find_from 0 slots now cooldown

  -- Every slot of the list is passed over.
  abbrev pub AllPassedOver : ℕ → ℕ → List S → Type 0
  AllPassedOver now cooldown [] = Unit
  AllPassedOver now cooldown (s ∷ ss) =
      (is_passed_over now cooldown s ≡ true) × AllPassedOver now cooldown ss

  -- A search ended at the slot with that index, the first that may be taken; or there is none.
  abbrev pub Finds : ℕ → ℕ → List S → Option ℕ → Type 0
  Finds now cooldown slots none = AllPassedOver now cooldown slots
  Finds now cooldown slots (some i) =
      (s : S) × (get_elem? slots i ≡ some s)
      × (is_passed_over now cooldown s ≡ false)
      × AllPassedOver now cooldown (take i slots)

  abbrev shifted : ℕ → Option ℕ → Option ℕ
  shifted k none = none
  shifted k (some i) = some (k + i)

  find_from_shift :
      (i : ℕ) (ss : List S) (now cooldown : ℕ)
      → find_from (suc i) ss now cooldown ≡ shifted 1 (find_from i ss now cooldown)
  unfolding find_from
  find_from_shift i [] now cooldown = refl
  find_from_shift i (s ∷ ss) now cooldown = ground (arith, find_from_shift (suc i) ss now cooldown)

  Finds-cons :
      (now cooldown : ℕ) (s : S) (ss : List S) (r : Option ℕ)
      → is_passed_over now cooldown s ≡ true
      → Finds now cooldown ss r
      → Finds now cooldown (s ∷ ss) (shifted 1 r)
  Finds-cons now cooldown s ss none p f = (p, f)
  Finds-cons now cooldown s ss (some i) p f =
      let e : 1 + i ≡ suc i = omega arith in rw e (f.0, f.1, f.2, (p, f.3))

  find_from-Finds :
      (ss : List S) (now cooldown : ℕ) → Finds now cooldown ss (find_from 0 ss now cooldown)
  unfolding find_from
  find_from-Finds [] now cooldown = tt
  find_from-Finds (s ∷ ss) now cooldown = elim (Bool-cases (is_passed_over now cooldown s)) [
    | inl t ↦
        rw (t, find_from_shift) (Finds-cons now cooldown s ss _ t (find_from-Finds ss now cooldown))
    | inr t ↦ rw t (s, refl, t, tt)
  ]

  pub find_free_slot-Finds :
      (slots : List S) (now cooldown : ℕ)
      → Finds now cooldown slots (find_free_slot slots now cooldown)
  unfolding find_free_slot
  find_free_slot-Finds slots now cooldown = find_from-Finds slots now cooldown

  -- What the index that it gives stands for.
  pub find_free_slot-some :
      (slots : List S) (now cooldown i : ℕ)
      → find_free_slot slots now cooldown ≡ some i
      → (s : S) × (get_elem? slots i ≡ some s)
        × (active s ≡ false)
        × (last_finalize_ms s ≢ 0 → cooldown ≤ sub32 now (last_finalize_ms s))
  find_free_slot-some slots now cooldown i e =
      go (find_free_slot slots now cooldown) e (find_free_slot-Finds slots now cooldown)
    where
      go :
          (r : Option ℕ)
          → r ≡ some i
          → Finds now cooldown slots r
          → (s : S) × (get_elem? slots i ≡ some s)
            × (active s ≡ false)
            × (last_finalize_ms s ≢ 0 → cooldown ≤ sub32 now (last_finalize_ms s))
      go none c f = absurd (cc)
      go (some j) c (s, at, free, _) =
          (s, rw (some-injective j i c) at at, ground (arith, free), λ z. ground (arith, free, z))
