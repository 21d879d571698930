-- ===== src/MemoryGuard/Tests.antt =====
-- The default sizes of the configuration, with 200 KiB free in one block.
use esp_reverse_tunneling_li.Prelude.{◌≡◌, refl, true}
use esp_reverse_tunneling_li.MemoryGuard.{requirements, has_contiguous_capacity}

passes : has_contiguous_capacity 204800 (requirements 32768 8192 20480) ≡ true
unfolding has_contiguous_capacity requirements
passes = refl
