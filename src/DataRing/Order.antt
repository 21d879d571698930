-- ===== src/DataRing/Order.antt =====
-- The data ring as one queue of bytes: those put back in front, then those of the FreeRTOS ring.
use esp_reverse_tunneling_li.Prelude.{ℕ, ◌+◌, ◌<◌, ◌≡◌, Option, none, some, List, [], ◌++◌, word}
use esp_reverse_tunneling_li.Prepend
use esp_reverse_tunneling_li.Prepend.Order
use esp_reverse_tunneling_li.RingApi.{RingApi, RingLaws}
use esp_reverse_tunneling_li.DataRing.{DataRing, prepend_cap}

module _ (api : RingApi) (laws : RingLaws api) where
  abbrev pub ring_bytes : Option api.Ring → List ℕ
  ring_bytes none = []
  ring_bytes (some r) = laws.bytes r

  -- The bytes that a reader will get, in order.
  abbrev pub contents : DataRing api.Ring → List ℕ
  contents d = Prepend.Order.contents d.prepend ++ ring_bytes d.handle

  abbrev pub Fits : Option api.Ring → ℕ → ℕ → Type 0
  Fits none capacity front = front ≡ 0
  Fits (some r) capacity front = (laws.size r ≡ capacity) × (front ≡ prepend_cap)

  -- The ring has the size asked for and the prepend buffer its constant size, or both are missing.
  pub record IsValid (d : DataRing api.Ring) : Type 0 where
    pub front : Prepend.Order.IsValid d.prepend
    pub fits : Fits d.handle d.capacity d.prepend.cap
    pub small : d.capacity + prepend_cap < word
