-- ===== src/Prepend/Order.antt =====
-- The prepend buffer as the queue of its pending bytes: bytes that are put back are read first.
use esp_reverse_tunneling_li.Prelude.{
  ℕ, zero, suc, ◌+◌, ◌-◌, ◌≤◌, ◌<◌, min, ◌≡◌, refl, ap, ap₂, ◌∙◌, inl, inr, true, false, ◌||◌,
  Option, none, some, List, [], ◌++◌, append-nil, arith, ltb, leb, ◌==◌, if◌then◌else◌, lt→ltb,
  le→leb, Bool-cases, length, take, drop, blit, length-take, length-drop, take_all, take-drop_split,
  drop-drop, length-blit, take-blit, drop-blit, word, add32, sub32,
}
use esp_reverse_tunneling_li.Prepend.{
  Prepend, unbound, pending, is_empty, copy_size, reset, write_to_front, read, clear, move_pending,
  advance,
}

abbrev pub contents_of : Option (List ℕ) → ℕ → ℕ → List ℕ
contents_of none len off = []
contents_of (some buf) len off = take (len - off) (drop off buf)

-- The bytes that a reader will get, in order.
abbrev pub contents : Prepend → List ℕ
contents b = contents_of b.buf b.len b.off

abbrev pub Holds : Option (List ℕ) → ℕ → Type 0
Holds none cap = cap ≡ 0
Holds (some buf) cap = cap ≤ length buf

-- The storage holds `cap` bytes, and the window [off, len) lies in it.
pub record IsValid (b : Prepend) : Type 0 where
  pub holds : Holds b.buf b.cap
  pub len_in : b.len ≤ b.cap
  pub off_in : b.off ≤ b.len
  pub small : b.cap < word

pub length-contents : (b : Prepend) → IsValid b → length (contents b) ≡ pending b
length-contents b v = go b.buf v.holds
  where
    go : (m : Option (List ℕ)) → Holds m b.cap → length (contents_of m b.len b.off) ≡ pending b
    go none h = ground (arith, v.len_in)
    go (some buf) h = ground (
      arith,
      length-take (b.len - b.off) (drop b.off buf),
      length-drop b.off buf,
      v.len_in,
      v.off_in,
    )

length-moved : (buf : List ℕ) (len off k : ℕ) → length (move_pending buf len off k) ≡ length buf
unfolding move_pending
length-moved buf len off k = ground (arith, length-blit buf len (take k (drop off buf)))

-- The block that `write_to_front` builds: the new bytes, then what was pending.
put_front :
    (buf bytes : List ℕ) (off k : ℕ)
    → off + k ≤ length buf
    → length bytes + k ≤ length buf
    → take (length bytes + k) (blit (move_pending buf (length bytes) off k) 0 bytes)
      ≡ bytes ++ take k (drop off buf)
unfolding move_pending
put_front buf bytes off zero h g =
    ground (arith, take-drop_split (length bytes) 0 (blit buf 0 bytes), take-blit buf 0 bytes)
put_front buf bytes off (suc k) h g = rw (lt→ltb 0 (suc k) (omega arith)) (
    take-drop_split (length bytes) (suc k) (blit moved 0 bytes)
    ∙ ap₂ ◌++◌ (take-blit moved 0 bytes (omega (arith, fits)))
        (ap (take (suc k)) (drop-blit moved bytes) ∙ kept))
  where
    held : List ℕ
    held = take (suc k) (drop off buf)

    moved : List ℕ
    moved = blit buf (length bytes) held

    fits : length moved ≡ length buf
    fits = length-blit buf (length bytes) held

    size : length held ≡ suc k
    size = omega (arith, length-take (suc k) (drop off buf), length-drop off buf)

    kept : take (suc k) (drop (length bytes) moved) ≡ held
    kept = rw size at (take-blit buf (length bytes) held (omega (arith, size)))

-- What `write_to_front` does on a buffer: all of the bytes are stored if they fit beside the pending
-- ones and else none, they come before the pending ones, and the invariant is kept.
abbrev pub PutsFront : Prepend → List ℕ → Type 0
PutsFront b bytes =
    let (n, b') = write_to_front b bytes in
    (n ≡ (if leb (length bytes) (b.cap - pending b) then length bytes else 0))
    × (contents b' ≡ take n bytes ++ contents b)
    × IsValid b'

pending_lem : (len off : ℕ) → off ≤ len → (if ltb off len then len - off else 0) ≡ len - off
pending_lem len off h = ground arith

-- The branch that rejects: nothing to store, or no room.
rejects :
    (b : Prepend) (buf bytes : List ℕ)
    → IsValid (record b { buf = some buf })
    → (length bytes == 0 || ltb (sub32 b.cap (pending b)) (length bytes)) ≡ true
    → PutsFront (record b { buf = some buf }) bytes
unfolding write_to_front
rejects b buf bytes v t = rw t (count, refl, v)
  where
    count : 0 ≡ (if leb (length bytes) (b.cap - pending b) then length bytes else 0)
    count = ground (arith, v.len_in, v.small, pending_lem b.len b.off v.off_in)

-- The branch that stores.
stores :
    (b : Prepend) (buf bytes : List ℕ)
    → IsValid (record b { buf = some buf })
    → (length bytes == 0 || ltb (sub32 b.cap (pending b)) (length bytes)) ≡ false
    → PutsFront (record b { buf = some buf }) bytes
unfolding write_to_front
stores b buf bytes v t = rw t (count, order, valid)
  where
    held : pending b ≡ b.len - b.off
    held = pending_lem b.len b.off v.off_in

    room : (length bytes ≤ b.cap - pending b) × (length bytes + pending b ≤ b.cap)
    room = ground (arith, v.len_in, v.small, held, t)

    count : length bytes ≡ (if leb (length bytes) (b.cap - pending b) then length bytes else 0)
    count = rw (le→leb (length bytes) (b.cap - pending b) room.0)

    size : add32 (length bytes) (pending b) ≡ length bytes + (b.len - b.off)
    size = omega (arith, room.1, v.small, held)

    moved : List ℕ
    moved = move_pending buf (length bytes) b.off (pending b)

    order :
        take (add32 (length bytes) (pending b) - 0) (blit moved 0 bytes)
        ≡ take (length bytes) bytes ++ take (b.len - b.off) (drop b.off buf)
    order =
        let e : add32 (length bytes) (pending b) - 0 ≡ length bytes + (b.len - b.off) =
          omega (arith, size) in
        rw (e, held, take_all (length bytes) bytes (omega arith))
          (put_front buf bytes b.off (b.len - b.off) (omega (arith, v))
            (omega (arith, v, room.1, held)))

    valid : IsValid (record {
      buf = some (blit moved 0 bytes);
      cap = b.cap;
      len = add32 (length bytes) (pending b);
      off = 0;
    })
    valid = omega (
      arith,
      v,
      size,
      room.1,
      held,
      length-blit moved 0 bytes,
      length-moved buf (length bytes) b.off (pending b),
    )

-- On every valid buffer, and for any span shorter than 2^32, `write_to_front` stores all of the
-- bytes if they fit beside the pending ones and none otherwise, returns their number, leaves them in
-- order before the pending ones, and keeps the invariant.
pub write_to_front-PutsFront :
    (b : Prepend) (bytes : List ℕ) → IsValid b → length bytes < word → PutsFront b bytes
unfolding write_to_front
write_to_front-PutsFront b bytes v s = go b.buf v
  where
    go :
        (m : Option (List ℕ))
        → IsValid (record b { buf = m })
        → PutsFront (record b { buf = m }) bytes
    go none w = ground (arith, w.holds)
    go (some buf) w =
        elim (Bool-cases (length bytes == 0 || ltb (sub32 b.cap (pending b)) (length bytes))) [
          | inl t ↦ rejects b buf bytes w t
          | inr t ↦ stores b buf bytes w t
        ]

-- `read` of `len` bytes on a buffer: the bytes copied are the first pending ones, in order, as many as
-- are asked for and there, the rest stays, and the invariant is kept.
abbrev pub ReadsFront : Prepend → ℕ → Type 0
ReadsFront b len =
    let (out, b') = read b len in
    (out ++ contents b' ≡ contents b) × (length out ≡ min len (pending b)) × IsValid b'

-- The window cut at `copy`.
cut :
    (buf : List ℕ) (len off copy : ℕ)
    → off + copy ≤ len
    → take copy (drop off buf) ++ take (len - (off + copy)) (drop (off + copy) buf)
      ≡ take (len - off) (drop off buf)
cut buf len off copy h =
    let e : len - off ≡ copy + (len - (off + copy)) = omega arith in
    rw (e, take-drop_split copy (len - (off + copy)) (drop off buf), drop-drop off copy buf)

advance_lem :
    (b : Prepend) (buf : List ℕ) (copy : ℕ)
    → IsValid (record b { buf = some buf })
    → copy ≤ b.len - b.off
    → let b' = advance (record b { buf = some buf }) copy in
      (take copy (drop b.off buf) ++ contents b' ≡ take (b.len - b.off) (drop b.off buf))
      × IsValid b'
unfolding advance
advance_lem b buf copy v h = elim (Bool-cases (leb b.len (add32 b.off copy))) [
  | inl t ↦ rw t (whole t, omega (arith, v))
  | inr t ↦ rw t (part t, omega (arith, v, low))
]
  where
    low : add32 b.off copy ≡ b.off + copy
    low = omega (arith, v)

    whole :
        leb b.len (add32 b.off copy) ≡ true
        → take copy (drop b.off buf) ++ [] ≡ take (b.len - b.off) (drop b.off buf)
    whole t =
        let e : copy ≡ b.len - b.off = ground (arith, low, t, v.off_in) in
        append-nil _ ∙ ap (λ k. take k (drop b.off buf)) e

    part :
        leb b.len (add32 b.off copy) ≡ false
        → take copy (drop b.off buf)
            ++ take (b.len - add32 b.off copy) (drop (add32 b.off copy) buf)
          ≡ take (b.len - b.off) (drop b.off buf)
    part t = rw low (cut buf b.len b.off copy (omega (arith, v)))

-- On every valid buffer `read` gives the first pending bytes, min(len, pending) of them, in order,
-- keeps the others pending in order, and keeps the invariant.
pub read-ReadsFront : (b : Prepend) (len : ℕ) → IsValid b → ReadsFront b len
unfolding read
read-ReadsFront b len v = go b.buf v
  where
    least : copy_size b len ≤ b.len - b.off
    least = ground arith

    cuts :
        (buf : List ℕ)
        → IsValid (record b { buf = some buf })
        → let b' = advance (record b { buf = some buf }) (copy_size b len) in
          (take (copy_size b len) (drop b.off buf) ++ contents b'
            ≡ take (b.len - b.off) (drop b.off buf))
          × IsValid b'
    cuts buf w = advance_lem b buf (copy_size b len) w least

    count :
        (buf : List ℕ)
        → IsValid (record b { buf = some buf })
        → (len == 0 || leb b.len b.off) ≡ false
        → length (take (copy_size b len) (drop b.off buf)) ≡ min len (pending b)
    count buf w t = ground (
      arith,
      length-take (copy_size b len) (drop b.off buf),
      length-drop b.off buf,
      pending_lem b.len b.off w.off_in,
      w.off_in,
      w.len_in,
      w.holds,
      t,
    )

    go :
        (m : Option (List ℕ))
        → IsValid (record b { buf = m })
        → ReadsFront (record b { buf = m }) len
    go none w = ground (arith, w.holds, w.len_in)
    go (some buf) w = elim (Bool-cases (len == 0 || leb b.len b.off)) [
      | inl t ↦ rw t (refl, ground (arith, t, w.off_in), w)
      | inr t ↦ rw t ((cuts buf w).0, count buf w t, (cuts buf w).1)
    ]

-- `clear` leaves nothing pending and the buffer valid.
pub clear_lem : (b : Prepend) → IsValid b → (contents (clear b) ≡ []) × IsValid (clear b)
unfolding clear
clear_lem b v = (
  go b.buf,
  record { holds = v.holds; len_in = omega arith; off_in = omega arith; small = v.small },
)
  where
    go : (m : Option (List ℕ)) → contents_of m 0 0 ≡ []
    go none = refl
    go (some buf) = refl

-- `reset` leaves nothing pending, and the buffer is valid if the storage holds the capacity.
pub reset_lem :
    (b : Prepend) (storage : List ℕ) (size : ℕ)
    → size ≤ length storage
    → size < word
    → let b' = reset b (some storage) size in (contents b' ≡ []) × IsValid b' × (b'.cap ≡ size)
unfolding reset
reset_lem b storage size h s = (refl, omega arith, refl)

pub unbound-IsValid : IsValid unbound
unbound-IsValid = omega arith

pub cap-clear : (b : Prepend) → (clear b).cap ≡ b.cap
unfolding clear
cap-clear b = refl

pub cap-write_to_front : (b : Prepend) (bytes : List ℕ) → (write_to_front b bytes).1.cap ≡ b.cap
unfolding write_to_front
cap-write_to_front b bytes = ground arith

pub cap-read : (b : Prepend) (len : ℕ) → (read b len).1.cap ≡ b.cap
unfolding read advance
cap-read b len = ground arith

pub contents-is_empty : (b : Prepend) → is_empty b ≡ true → contents b ≡ []
contents-is_empty b t = go b.buf
  where
    none_left : b.len - b.off ≡ 0
    none_left = ground arith

    go : (m : Option (List ℕ)) → contents_of m b.len b.off ≡ []
    go none = refl
    go (some buf) = rw none_left refl

pub pending-le-cap : (b : Prepend) → IsValid b → pending b ≤ b.cap
pending-le-cap b v = ground (arith, v.len_in)
