-- ===== src/DataRing/Tests.antt =====
-- The theorems on the data ring at a ring of 64 bytes that holds six, two of them in front.
use esp_reverse_tunneling_li.Prelude.{
  ℕ, ◌≤◌, ◌≡◌, ap, some, List, [], ◌∷◌, arith, length, replicate, length-replicate,
}
use mathlib.Core.Option.{some-injective}
use esp_reverse_tunneling_li.DataRing.{prepend_cap, read}
use esp_reverse_tunneling_li.DataRing.Write.{Appends, write_lem}
use esp_reverse_tunneling_li.DataRing.Read.{Reads, read_lem}
use esp_reverse_tunneling_li.Examples.{fifo, fifo_laws, six, six-IsValid}

write_lem_example : Appends fifo fifo_laws six (7 ∷ 8 ∷ [])
write_lem_example = write_lem fifo fifo_laws six (7 ∷ 8 ∷ []) six-IsValid

read_lem_example : Reads fifo fifo_laws six 4 (read fifo six 4)
read_lem_example = read_lem fifo fifo_laws six 4 six-IsValid (omega arith)

storage_size : (s : List ℕ) → some (replicate 8192 0) ≡ some s → prepend_cap ≤ length s
storage_size s e =
    let l = length-replicate {A = ℕ} 8192 0 in
    let m = ap length (some-injective _ _ e) in omega (arith, l, m)
