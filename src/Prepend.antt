-- ===== src/Prepend.antt =====
-- PrependBuffer (src/prepend_buffer.h): the bytes that a partial send gave back, which are read
-- before those of the ring. A span (pointer and length) is the list of its bytes; a null pointer
-- given with it is the empty span, which every operation answers in the same way.
pub mod Order
mod Tests
use esp_reverse_tunneling_li.Prelude.{
  ℕ, ◌-◌, Bool, ◌||◌, List, [], Option, none, some, ltb, leb, ◌==◌, if◌then◌else◌, length, take,
  drop, blit, add32, sub32,
}

-- `buf` is the storage that the owner bound; `none` is the null pointer.
pub record Prepend : Type 0 where
  pub buf : Option (List ℕ)
  pub cap : ℕ
  pub len : ℕ
  pub off : ℕ

-- The object that the default constructor makes.
abbrev pub unbound : Prepend
unbound = record { buf = none; cap = 0; len = 0; off = 0 }

unfoldable pub reset : Prepend → Option (List ℕ) → ℕ → Prepend
reset b storage capacity = record { buf = storage; cap = capacity; len = 0; off = 0 }

abbrev pub pending : Prepend → ℕ
pending b = if ltb b.off b.len then b.len - b.off else 0

abbrev pub is_empty : Prepend → Bool
is_empty b = leb b.len b.off

-- The `memmove` is skipped when nothing is pending.
move_pending : List ℕ → ℕ → ℕ → ℕ → List ℕ
move_pending buf len off n = if ltb 0 n then blit buf len (take n (drop off buf)) else buf

-- `len > cap_ - pendingLen` subtracts on `size_t`, so it wraps.
unfoldable pub write_to_front : Prepend → List ℕ → ℕ × Prepend
unfolding move_pending
write_to_front b bytes = elim b.buf [
  | none ↦ (0, b)
  | some buf ↦
      if length bytes == 0 || ltb (sub32 b.cap (pending b)) (length bytes) then (0, b) else (
        length bytes,
        record b {
          buf = some (blit (move_pending buf (length bytes) b.off (pending b)) 0 bytes);
          len = add32 (length bytes) (pending b);
          off = 0;
        },
      )
]

-- `off_ += copy`, and the reset when all has been read.
advance : Prepend → ℕ → Prepend
advance b copy =
    if leb b.len (add32 b.off copy)
    then record b { len = 0; off = 0 }
    else record b { off = add32 b.off copy }

-- `size_t copy = avail < len ? avail : len;`
abbrev pub copy_size : Prepend → ℕ → ℕ
copy_size b len = if ltb (b.len - b.off) len then b.len - b.off else len

-- The bytes that are copied to `out`, and the new state; their number is the result.
unfoldable pub read : Prepend → ℕ → List ℕ × Prepend
unfolding advance
read b len = elim b.buf [
  | none ↦ ([], b)
  | some buf ↦
      if len == 0 || leb b.len b.off
      then ([], b)
      else (take (copy_size b len) (drop b.off buf), advance b (copy_size b len))
]

unfoldable pub clear : Prepend → Prepend
clear b = record b { len = 0; off = 0 }
