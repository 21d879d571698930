-- ===== src/Prepend/Tests.antt =====
-- The theorems on the prepend buffer at a buffer of 8192 bytes with the bytes 1 and 2 pending.
use esp_reverse_tunneling_li.Prelude.{[], ◌∷◌, arith}
use esp_reverse_tunneling_li.Prepend.Order.{
  PutsFront, ReadsFront, write_to_front-PutsFront, read-ReadsFront,
}
use esp_reverse_tunneling_li.Examples.{front, front-IsValid}

write_to_front-PutsFront_example : PutsFront front (7 ∷ 8 ∷ 9 ∷ [])
write_to_front-PutsFront_example =
    write_to_front-PutsFront front (7 ∷ 8 ∷ 9 ∷ []) front-IsValid (omega arith)

read-ReadsFront_example : ReadsFront front 1
read-ReadsFront_example = read-ReadsFront front 1 front-IsValid
