-- ===== src/DataRing/Write.antt =====
-- Writing to a data ring: at its end, and back in front of what is there.
use esp_reverse_tunneling_li.Prelude.{
  ℕ, zero, suc, ◌+◌, ◌-◌, ◌<◌, min, ◌≡◌, refl, sym, ap, ◌∙◌, inl, inr, true, false, ◌||◌, Option,
  none, some, List, ◌++◌, append-nil, append_assoc, arith, leb, ◌==◌, if◌then◌else◌, Bool-cases,
  length, take, drop, length-append, length-take, length-drop, word,
}
use esp_reverse_tunneling_li.Prepend
use esp_reverse_tunneling_li.Prepend.Order
use esp_reverse_tunneling_li.RingApi.{RingApi, RingLaws}
use esp_reverse_tunneling_li.DataRing.{DataRing, write_loop, write, write_to_front, available}
use esp_reverse_tunneling_li.DataRing.Order.{
  contents as contents_at, Fits as Fits_at, IsValid as IsValid_at,
}

module _ (api : RingApi) (laws : RingLaws api) where
  abbrev contents : DataRing api.Ring → List ℕ
  contents = contents_at api laws

  abbrev IsValid : DataRing api.Ring → Type 0
  IsValid = IsValid_at api laws

  abbrev Fits : Option api.Ring → ℕ → ℕ → Type 0
  Fits = Fits_at api laws

  -- One round sends what fits, and then either nothing is left or the ring is full.
  pub write_loop_lem :
      (fuel : ℕ) (r : api.Ring) (rest : List ℕ) (written : ℕ)
      → length rest < fuel
      → let (n, r') = write_loop api fuel r rest written in
        let k = min (length rest) (api.free_size r) in
        (n ≡ written + k)
        × (laws.bytes r' ≡ laws.bytes r ++ take k rest)
        × (laws.size r' ≡ laws.size r)
  unfolding write_loop
  write_loop_lem zero r rest written h = absurd (omega arith)
  write_loop_lem (suc fuel) r rest written h =
      elim (Bool-cases (length rest == 0 || api.free_size r == 0)) [
        | inl t ↦ rw t (ground (arith, t), stay t, refl)
        | inr t ↦
            let ih =
              write_loop_lem fuel (api.send r (take k rest)).1 (drop k rest) (written + k)
                (shorter t) in
            rw (t, (sent t).0)
              (
                omega (arith, ih.0, stops t),
                ih.1 ∙ rw (stops t) (append-nil _ ∙ (sent t).1),
                ih.2 ∙ (sent t).2,
              )
      ]
    where
      k : ℕ
      k = min (length rest) (api.free_size r)

      stay :
          (length rest == 0 || api.free_size r == 0) ≡ true
          → laws.bytes r ≡ laws.bytes r ++ take k rest
      stay t = let e : k ≡ 0 = ground (arith, t) in rw (e, append-nil) refl

      sent :
          (length rest == 0 || api.free_size r == 0) ≡ false
          → ((api.send r (take k rest)).0 ≡ true)
            × (laws.bytes (api.send r (take k rest)).1 ≡ laws.bytes r ++ take k rest)
            × (laws.size (api.send r (take k rest)).1 ≡ laws.size r)
      sent t =
          laws.send_lem r (take k rest) (ground (arith, t, length-take k rest))
            (omega (arith, length-take k rest))

      shorter : (length rest == 0 || api.free_size r == 0) ≡ false → length (drop k rest) < fuel
      shorter t = ground (arith, t, length-drop k rest)

      stops :
          (length rest == 0 || api.free_size r == 0) ≡ false
          → min (length (drop k rest)) (api.free_size (api.send r (take k rest)).1) ≡ 0
      stops t = omega (
        arith,
        (sent t).2,
        ap length (sent t).1,
        length-append (laws.bytes r) (take k rest),
        length-take k rest,
        length-drop k rest,
        laws.free_size_lem r,
        laws.free_size_lem (api.send r (take k rest)).1,
      )

  -- The free bytes of the ring, 0 without one.
  abbrev pub room : DataRing api.Ring → ℕ
  room d = available api d

  abbrev pub Appends : DataRing api.Ring → List ℕ → Type 0
  Appends d bytes =
      let (n, d') = write api d bytes in
      (n ≡ min (length bytes) (available api d))
      × (contents d' ≡ contents d ++ take n bytes)
      × IsValid d'

  -- On every valid ring `write` takes as many bytes as are free, or all, returns their number, adds
  -- exactly these to the end in order, and keeps the invariant.
  pub write_lem : (d : DataRing api.Ring) (bytes : List ℕ) → IsValid d → Appends d bytes
  unfolding write available
  write_lem d bytes v = go d.handle v
    where
      go :
          (m : Option api.Ring)
          → IsValid (record d { handle = m })
          → Appends (record d { handle = m }) bytes
      go none w = (omega arith, sym (append-nil _), w)
      go (some r) w = elim (Bool-cases (length bytes == 0)) [
        | inl t ↦ rw t (ground (arith, t), sym (append-nil _), w)
        | inr t ↦ rw t (
          loop.0,
          rw (loop.1, loop.0, append_assoc) refl,
          record { front = w.front; fits = (loop.2 ∙ w.fits.0, w.fits.1); small = w.small },
        )
      ]
        where
          loop :
              let (n, r') = write_loop api (length bytes + 1) r bytes 0 in
              let k = min (length bytes) (api.free_size r) in
              (n ≡ k)
              × (laws.bytes r' ≡ laws.bytes r ++ take k bytes)
              × (laws.size r' ≡ laws.size r)
          loop =
              let l = write_loop_lem (length bytes + 1) r bytes 0 (omega arith) in
              (omega (arith, l.0), l.1, l.2)

  pub write_to_front_lem :
      (d : DataRing api.Ring) (bytes : List ℕ)
      → IsValid d
      → length bytes < word
      → let (n, d') = write_to_front api d bytes in
        (n ≡ (
          if leb (length bytes) (d.prepend.cap - Prepend.pending d.prepend)
          then length bytes
          else 0))
        × (contents d' ≡ take n bytes ++ contents d)
        × IsValid d'
  unfolding write_to_front
  write_to_front_lem d bytes v s =
      let front = Prepend.Order.write_to_front-PutsFront d.prepend bytes v.front s in
      (
        front.0,
        rw (front.1, append_assoc) refl,
        record { front = front.2; fits = same d.handle v.fits; small = v.small },
      )
    where
      same :
          (m : Option api.Ring)
          → Fits m d.capacity d.prepend.cap
          → Fits m d.capacity (Prepend.write_to_front d.prepend bytes).1.cap
      same m f = rw (Prepend.Order.cap-write_to_front d.prepend bytes) f

  pub capacity-write_to_front :
      (d : DataRing api.Ring) (bytes : List ℕ)
      → (write_to_front api d bytes).1.capacity ≡ d.capacity
  unfolding write_to_front
  capacity-write_to_front d bytes = refl

  pub capacity-write :
      (d : DataRing api.Ring) (bytes : List ℕ) → (write api d bytes).1.capacity ≡ d.capacity
  unfolding write
  capacity-write d bytes = ground arith
