-- ===== src/Transport/Restore.antt =====
-- Bytes that a partial send gives back.
use esp_reverse_tunneling_li.Prelude.{
  ℕ, ◌+◌, ◌-◌, ◌≤◌, ◌<◌, ◌≡◌, refl, sym, ◌∙◌, inl, inr, true, List, ◌++◌, arith, leb, ◌==◌,
  if◌then◌else◌, le→leb, Bool-cases, length, take, take_all, length-eq_zero, word,
}
use esp_reverse_tunneling_li.DataRing
use esp_reverse_tunneling_li.DataRing.{DataRing}
use esp_reverse_tunneling_li.DataRing.Order
use esp_reverse_tunneling_li.DataRing.Write
use esp_reverse_tunneling_li.Prepend
use esp_reverse_tunneling_li.RingApi.{RingApi, RingLaws}
use esp_reverse_tunneling_li.Transport.{restore_unsent, account_restore_drop}

module _ (api : RingApi) (laws : RingLaws api) where
  -- On a valid ring, bytes fewer than 2^32 that fit beside those already put back are all restored, in front of
  -- everything else; the invariant and the capacity are kept.
  pub restore_unsent_front :
      (d : DataRing api.Ring) (bytes : List ℕ)
      → DataRing.Order.IsValid api laws d
      → length bytes < word
      → length bytes + Prepend.pending d.prepend ≤ d.prepend.cap
      → let (n, d') = restore_unsent api d bytes in
        (n ≡ length bytes)
        × (DataRing.Order.contents api laws d' ≡ bytes ++ DataRing.Order.contents api laws d)
        × DataRing.Order.IsValid api laws d'
        × (d'.capacity ≡ d.capacity)
  unfolding restore_unsent
  restore_unsent_front d bytes v s fits = elim (Bool-cases (length bytes == 0)) [
    | inl t ↦ rw t (none_given t)
    | inr t ↦
        rw (t, all)
          (
            front.0 ∙ room,
            front.1 ∙ rw (front.0 ∙ room, take_all (length bytes) bytes (omega arith)) refl,
            front.2,
            DataRing.Write.capacity-write_to_front api laws d bytes,
          )
  ]
    where
      front :
          let (n, d') = DataRing.write_to_front api d bytes in
          (n ≡ (
            if leb (length bytes) (d.prepend.cap - Prepend.pending d.prepend)
            then length bytes
            else 0))
          × (DataRing.Order.contents api laws d'
              ≡ take n bytes ++ DataRing.Order.contents api laws d)
          × DataRing.Order.IsValid api laws d'
      front = DataRing.Write.write_to_front_lem api laws d bytes v s

      room :
          (if leb (length bytes) (d.prepend.cap - Prepend.pending d.prepend)
            then length bytes
            else 0)
          ≡ length bytes
      room =
          rw (le→leb (length bytes) (d.prepend.cap - Prepend.pending d.prepend) (omega arith)) refl

      all : ((DataRing.write_to_front api d bytes).0 == length bytes) ≡ true
      all = ground (arith, front.0, room)

      none_given :
          (length bytes == 0) ≡ true
          → (0 ≡ length bytes)
            × (DataRing.Order.contents api laws d ≡ bytes ++ DataRing.Order.contents api laws d)
            × DataRing.Order.IsValid api laws d
            × (d.capacity ≡ d.capacity)
      none_given t =
          let z : length bytes ≡ 0 = ground (arith, t) in
          (sym z, rw (length-eq_zero bytes z) refl, v, refl)

pub account_all : (dropped n : ℕ) → account_restore_drop dropped n n ≡ dropped
unfolding account_restore_drop
account_all dropped n = ground arith
