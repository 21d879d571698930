-- ===== src/DataRing/Read.antt =====
-- Reading from a data ring: first what was put back, then the FreeRTOS ring.
use esp_reverse_tunneling_li.Prelude.{
  ℕ, ◌+◌, ◌-◌, ◌≤◌, ◌<◌, min, ◌≡◌, refl, sym, ap, ◌∙◌, ◌⊎◌, inl, inr, true, false, Option, none,
  some, List, [], ◌++◌, append_assoc, arith, leb, ◌==◌, Bool-cases, Option-cases, length,
  length-append, take_all, length-eq_zero,
}
use esp_reverse_tunneling_li.Prepend
use esp_reverse_tunneling_li.Prepend.Order
use esp_reverse_tunneling_li.RingApi.{RingApi, RingLaws}
use esp_reverse_tunneling_li.DataRing.{DataRing, prepend_cap, read_ring, read}
use esp_reverse_tunneling_li.DataRing.Order.{
  contents as contents_at, Fits as Fits_at, IsValid as IsValid_at,
}

module _ (api : RingApi) (laws : RingLaws api) where
  abbrev contents : DataRing api.Ring → List ℕ
  contents = contents_at api laws

  abbrev IsValid : DataRing api.Ring → Type 0
  IsValid = IsValid_at api laws

  abbrev Fits : Option api.Ring → ℕ → ℕ → Type 0
  Fits = Fits_at api laws

  -- What a read of `len` bytes does: the bytes that it gives are the first ones, in order, the rest
  -- stays in order; it gives at most `len`, and none only if there are none; what it gave fits in
  -- front again; and the invariant is kept.
  pub record Reads (d : DataRing api.Ring) (len : ℕ) (result : List ℕ × DataRing api.Ring)
      : Type 0 where
    pub split : result.0 ++ contents result.1 ≡ contents d
    pub at_most : length result.0 ≤ len
    pub progress : result.0 ≡ [] → contents d ≡ []
    pub returnable :
        len ≤ prepend_cap
        → length result.0 + Prepend.pending result.1.prepend ≤ result.1.prepend.cap
    pub valid : IsValid result.1
    pub kept : result.1.capacity ≡ d.capacity

  -- The second part of `read`, on a ring with nothing left in front.
  record ReadsRing (d : DataRing api.Ring) (out : List ℕ) (remaining : ℕ)
      (result : List ℕ × DataRing api.Ring) : Type 0 where
    split : result.0 ++ contents result.1 ≡ out ++ contents d
    at_most : length result.0 ≤ length out + remaining
    progress : result.0 ≡ [] → (out ≡ []) × (contents d ≡ [])
    same : result.1.prepend ≡ d.prepend
    from_ring : (d.prepend.cap ≡ prepend_cap) ⊎ (result.0 ≡ out)
    valid : IsValid result.1
    kept : result.1.capacity ≡ d.capacity

  read_ring_lem :
      (d : DataRing api.Ring) (out : List ℕ) (remaining : ℕ)
      → IsValid d
      → Prepend.Order.contents d.prepend ≡ []
      → 0 < remaining
      → ReadsRing d out remaining (read_ring api d out remaining)
  unfolding read_ring
  read_ring_lem d out remaining v e h = go d.handle v
    where
      none_left :
          (r : api.Ring)
          → IsValid (record d { handle = some r })
          → (api.receive_up_to r remaining).0 ≡ none
          → ReadsRing
              (record d { handle = some r })
              out
              remaining
              (out, record d { handle = some (api.receive_up_to r remaining).1 })
      none_left r w t =
          let l = laws.receive_none r remaining t h in
          rw l.1 (record {
            split = refl;
            at_most = omega arith;
            progress = λ z. (z, rw (e, l.0) refl);
            same = refl;
            from_ring = inl w.fits.1;
            valid = w;
            kept = refl;
          })

      item_read :
          (r : api.Ring) (item : List ℕ)
          → IsValid (record d { handle = some r })
          → (api.receive_up_to r remaining).0 ≡ some item
          → ReadsRing
              (record d { handle = some r })
              out
              remaining
              (
                out ++ item,
                record d { handle = some (api.return_item (api.receive_up_to r remaining).1 item) },
              )
      item_read r item w t =
          let l = laws.receive_some r remaining item t in
          record {
            split = rw (e, append_assoc, l.0) refl;
            at_most = omega (arith, length-append out item, l.2);
            progress = λ z. absurd (omega (arith, ap length z, length-append out item, l.1));
            same = refl;
            from_ring = inl w.fits.1;
            valid = record { front = w.front; fits = (l.3 ∙ w.fits.0, w.fits.1); small = w.small };
            kept = refl;
          }

      go :
          (m : Option api.Ring)
          → IsValid (record d { handle = m })
          → ReadsRing
              (record d { handle = m })
              out
              remaining
              (read_ring api (record d { handle = m }) out remaining)
      go none w = record {
        split = refl;
        at_most = omega arith;
        progress = λ z. (z, rw e refl);
        same = refl;
        from_ring = inr refl;
        valid = w;
        kept = refl;
      }
      go (some r) w = elim (Option-cases (api.receive_up_to r remaining).0) [
        | inl t ↦ rw (t, read_ring) (none_left r w t)
        | inr (item, t) ↦
            rw
              (
                t,
                read_ring,
                take_all (min (length item) remaining) item
                    (omega (arith, (laws.receive_some r remaining item t).2)),
              )
              (item_read r item w t)
      ]

  -- When the read of the prepend buffer has taken less than `len`, nothing is left in front.
  drained :
      (d : DataRing api.Ring) (len : ℕ)
      → IsValid d
      → length (Prepend.read d.prepend len).0 < len
      → (Prepend.pending (Prepend.read d.prepend len).1 ≡ 0)
        × (Prepend.Order.contents (Prepend.read d.prepend len).1 ≡ [])
  drained d len v h =
      let l = Prepend.Order.read-ReadsFront d.prepend len v.front in
      let left = (Prepend.read d.prepend len).1 in
      let size = Prepend.Order.length-contents left l.2 in
      let none_left : Prepend.pending left ≡ 0 = omega (
        arith,
        l.1,
        size,
        ap length l.0,
        length-append (Prepend.read d.prepend len).0 (Prepend.Order.contents left),
        Prepend.Order.length-contents d.prepend v.front,
      ) in
      (none_left, length-eq_zero _ (size ∙ none_left))

  front_valid :
      (d : DataRing api.Ring) (len : ℕ)
      → IsValid d
      → IsValid (record d { prepend = (Prepend.read d.prepend len).1 })
  front_valid d len v = record {
    front = (Prepend.Order.read-ReadsFront d.prepend len v.front).2;
    fits = same d.handle v.fits;
    small = v.small;
  }
    where
      same :
          (m : Option api.Ring)
          → Fits m d.capacity d.prepend.cap
          → Fits m d.capacity (Prepend.read d.prepend len).1.cap
      same m f = rw (Prepend.Order.cap-read d.prepend len) f

  -- On every valid ring a read of at least one byte gives the first bytes in order, at most `len` of
  -- them and at least one if there is one, and leaves the rest in order; if `len` is at most the
  -- prepend capacity, what it gave fits in front again; the invariant and the capacity are kept.
  pub read_lem :
      (d : DataRing api.Ring) (len : ℕ) → IsValid d → 0 < len → Reads d len (read api d len)
  unfolding read
  read_lem d len v h = rw no_zero (elim (Bool-cases (Prepend.is_empty d.prepend)) [
    | inl t ↦ rw t (direct t)
    | inr t ↦ rw t (elim (Bool-cases (leb len (length (Prepend.read d.prepend len).0))) [
      | inl u ↦ rw u (front_only u)
      | inr u ↦ rw u (both u)
    ])
  ])
    where
      no_zero : (len == 0) ≡ false
      no_zero = ground arith

      first : List ℕ
      first = (Prepend.read d.prepend len).0

      left : DataRing api.Ring
      left = record d { prepend = (Prepend.read d.prepend len).1 }

      front : Prepend.Order.ReadsFront d.prepend len
      front = Prepend.Order.read-ReadsFront d.prepend len v.front

      -- What the first bytes and the ring's together are.
      joined :
          (result : List ℕ × DataRing api.Ring)
          → result.0 ++ contents result.1 ≡ first ++ contents left
          → result.0 ++ contents result.1 ≡ contents d
      joined result e = e ∙ rw (← append_assoc, front.0) refl

      front_fits : length first + Prepend.pending left.prepend ≤ left.prepend.cap
      front_fits = omega (
        arith,
        ap length front.0,
        length-append first (Prepend.Order.contents left.prepend),
        Prepend.Order.length-contents left.prepend front.2,
        Prepend.Order.length-contents d.prepend v.front,
        Prepend.Order.cap-read d.prepend len,
        Prepend.Order.pending-le-cap d.prepend v.front,
      )

      direct : Prepend.is_empty d.prepend ≡ true → Reads d len (read_ring api d [] len)
      direct t =
          let r = read_ring_lem d [] len v (Prepend.Order.contents-is_empty d.prepend t) h in
          let none_left : Prepend.pending d.prepend ≡ 0 = ground (arith, t) in
          let result = read_ring api d [] len in
          let size : length result.0 ≤ len = omega (arith, r.at_most) in
          let again : len ≤ prepend_cap
              → (d.prepend.cap ≡ prepend_cap) ⊎ (result.0 ≡ [])
              → length result.0 ≤ len
              → length result.0 + Prepend.pending d.prepend ≤ d.prepend.cap =
            λ c m k. elim m [ inl e ↦ omega arith | inr e ↦ omega (arith, ap length e) ] in
          record {
            split = r.split;
            at_most = size;
            progress = λ z. (r.progress z).1;
            returnable = λ c. rw r.same (again c r.from_ring size);
            valid = r.valid;
            kept = r.kept;
          }

      front_only : leb len (length first) ≡ true → Reads d len (first, left)
      front_only u = record {
        split = joined (first, left) refl;
        at_most = omega (arith, front.1);
        progress = λ z. absurd (ground (arith, ap length z, u));
        returnable = λ c. front_fits;
        valid = front_valid d len v;
        kept = refl;
      }

      both :
          leb len (length first) ≡ false
          → Reads d len (read_ring api left first (len - length first))
      both u =
          let some_left : length first < len = ground (arith, u) in
          let none_left = drained d len v some_left in
          let r =
            read_ring_lem left first (len - length first) (front_valid d len v) none_left.1
              (omega (arith, some_left)) in
          let result = read_ring api left first (len - length first) in
          let again : len ≤ prepend_cap
              → (left.prepend.cap ≡ prepend_cap) ⊎ (result.0 ≡ first)
              → length result.0 ≤ length first + (len - length first)
              → length result.0 + Prepend.pending left.prepend ≤ left.prepend.cap =
            λ c m k. elim m [
              | inl e ↦ omega (arith, none_left.0)
              | inr e ↦ omega (arith, ap length e, front_fits)
            ] in
          record {
            split = joined (read_ring api left first (len - length first)) r.split;
            at_most = omega (arith, r.at_most, some_left);
            progress =
                λ z. sym (joined (first, left) refl) ∙ rw ((r.progress z).0) ((r.progress z).1);
            returnable = λ c. rw r.same (again c r.from_ring r.at_most);
            valid = r.valid;
            kept = r.kept;
          }
