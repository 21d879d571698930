-- ===== src/DataRing/Size.antt =====
-- What a data ring reports of itself, and how it is emptied and made.
use esp_reverse_tunneling_li.Prelude.{
  ℕ, zero, suc, ◌+◌, ◌≤◌, ◌<◌, ◌≡◌, refl, ap, ◌∙◌, ◌↔◌, inl, inr, Bool, true, false, ◌&&◌, Option,
  none, some, List, [], arith, if◌then◌else◌, Option-cases, length, length-append, length-eq_zero,
  word,
}
use esp_reverse_tunneling_li.Prepend
use esp_reverse_tunneling_li.Prepend.Order
use esp_reverse_tunneling_li.RingApi.{RingApi, RingLaws}
use esp_reverse_tunneling_li.DataRing.{
  DataRing, prepend_cap, bind_storage, construct, clear_loop, size, clear, is_empty,
}
use esp_reverse_tunneling_li.DataRing.Order.{
  contents as contents_at, Fits as Fits_at, IsValid as IsValid_at,
}

module _ (api : RingApi) (laws : RingLaws api) where
  abbrev contents : DataRing api.Ring → List ℕ
  contents = contents_at api laws

  abbrev IsValid : DataRing api.Ring → Type 0
  IsValid = IsValid_at api laws

  abbrev Fits : Option api.Ring → ℕ → ℕ → Type 0
  Fits = Fits_at api laws

  -- On a valid ring `size` is the number of bytes that a reader will get, and does not wrap.
  pub size_lem : (d : DataRing api.Ring) → IsValid d → size api d ≡ length (contents d)
  unfolding size
  size_lem d v = go d.handle v
    where
      go :
          (m : Option api.Ring)
          → IsValid (record d { handle = m })
          → size api (record d { handle = m }) ≡ length (contents (record d { handle = m }))
      go none w = omega (
        arith,
        w.front,
        w.small,
        Prepend.Order.pending-le-cap d.prepend w.front,
        w.fits,
        length-append (Prepend.Order.contents d.prepend) [],
        Prepend.Order.length-contents d.prepend w.front,
      )
      go (some r) w = ground (
        arith,
        w.fits.0,
        w.fits.1,
        w.small,
        Prepend.Order.pending-le-cap d.prepend w.front,
        laws.free_size_lem r,
        length-append (Prepend.Order.contents d.prepend) (laws.bytes r),
        Prepend.Order.length-contents d.prepend w.front,
      )

  -- On a valid ring `empty` holds exactly when a reader will get nothing.
  pub is_empty_lem :
      (d : DataRing api.Ring) → IsValid d → (is_empty api d ≡ true) ↔ (contents d ≡ [])
  unfolding is_empty
  is_empty_lem d v = (
    λ t. length-eq_zero _ (ground (arith, size_lem d v, t)),
    λ e. ground (arith, size_lem d v, ap length e),
  )

  clear_loop_lem :
      (fuel : ℕ) (r : api.Ring) (capacity : ℕ)
      → length (laws.bytes r) < fuel
      → 0 < capacity
      → let r' = clear_loop api fuel r capacity in
        (laws.bytes r' ≡ []) × (laws.size r' ≡ laws.size r)
  unfolding clear_loop
  clear_loop_lem zero r capacity h c = absurd (omega arith)
  clear_loop_lem (suc fuel) r capacity h c = elim (Option-cases (api.receive_up_to r capacity).0) [
    | inl t ↦ let l = laws.receive_none r capacity t c in rw (t, clear_loop, l.1) (l.0, refl)
    | inr (item, t) ↦
        let l = laws.receive_some r capacity item t in
        let r' = api.return_item (api.receive_up_to r capacity).1 item in
        let ih =
          clear_loop_lem fuel r' capacity
            (omega (arith, ap length l.0, length-append item (laws.bytes r'), l.1)) c in
        rw (t, clear_loop) (ih.0, ih.1 ∙ l.3)
  ]

  -- `clear` empties a valid ring of positive capacity, and keeps the invariant.
  pub clear_lem :
      (d : DataRing api.Ring)
      → IsValid d
      → 0 < d.capacity
      → (contents (clear api d) ≡ []) × IsValid (clear api d)
  unfolding clear
  clear_lem d v c = go d.handle v
    where
      front : Prepend.Order.contents (Prepend.clear d.prepend) ≡ []
      front = (Prepend.Order.clear_lem d.prepend v.front).0

      front_valid : Prepend.Order.IsValid (Prepend.clear d.prepend)
      front_valid = (Prepend.Order.clear_lem d.prepend v.front).1

      go :
          (m : Option api.Ring)
          → IsValid (record d { handle = m })
          → let d' = clear api (record d { handle = m }) in (contents d' ≡ []) × IsValid d'
      go none w = (
        rw front refl,
        record {
          front = front_valid;
          fits = Prepend.Order.cap-clear d.prepend ∙ w.fits;
          small = w.small;
        },
      )
      go (some r) w =
          let l =
            clear_loop_lem (d.capacity + 1) r d.capacity
              (omega (arith, laws.free_size_lem r, w.fits)) c in
          (
            rw (front, l.0) refl,
            record {
              front = front_valid;
              fits = (l.1 ∙ w.fits.0, Prepend.Order.cap-clear d.prepend ∙ w.fits.1);
              small = w.small;
            },
          )

  bind_storage_lem :
      (n : ℕ) (m : Option api.Ring) (front : Option (List ℕ))
      → n + prepend_cap < word
      → ((r : api.Ring) → m ≡ some r → (laws.bytes r ≡ []) × (laws.size r ≡ n))
      → ((s : List ℕ) → front ≡ some s → prepend_cap ≤ length s)
      → let d = bind_storage api n m front in (contents d ≡ []) × IsValid d × (d.capacity ≡ n)
  unfolding bind_storage
  bind_storage_lem n none front h l k =
      (refl, record { front = Prepend.Order.unbound-IsValid; fits = refl; small = h }, refl)
  bind_storage_lem n (some r) none h l k =
      (refl, record { front = Prepend.Order.unbound-IsValid; fits = refl; small = h }, refl)
  bind_storage_lem n (some r) (some s) h l k =
      let p = Prepend.Order.reset_lem Prepend.unbound s prepend_cap (k s refl) (omega arith) in
      (
        rw (p.0, (l r refl).0) refl,
        record { front = p.1; fits = ((l r refl).1, p.2); small = h },
        refl,
      )

  -- If the capacity and that of the prepend buffer are below 2^32 together, and the storage of the prepend
  -- buffer has its size where it was allocated, then the constructor makes a valid empty ring that reports
  -- the capacity asked for, however the allocations end.
  pub construct_lem :
      (n : ℕ) (storage_ok struct_ok : Bool) (front : Option (List ℕ))
      → n + prepend_cap < word
      → ((s : List ℕ) → front ≡ some s → prepend_cap ≤ length s)
      → let d = construct api n storage_ok struct_ok front in
        (contents d ≡ []) × IsValid d × (d.capacity ≡ n)
  unfolding construct
  construct_lem n storage_ok struct_ok front h k =
      bind_storage_lem n (if storage_ok && struct_ok then api.create n else none) front h
        (λ r e. laws.create_lem n r (created (storage_ok && struct_ok) r e)) k
    where
      created :
          (b : Bool) (r : api.Ring)
          → (if b then api.create n else none) ≡ some r
          → api.create n ≡ some r
      created true r e = e
      created false r e = cc

  pub size-pos : (d : DataRing api.Ring) → is_empty api d ≡ false → 0 < size api d
  unfolding is_empty
  size-pos d t = ground arith
