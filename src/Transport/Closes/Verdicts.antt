-- ===== src/Transport/Closes/Verdicts.antt =====
-- When `checkCloses` finalizes a draining slot.
use esp_reverse_tunneling_li.Prelude.{
  ℕ, ◌≤◌, ◌≡◌, refl, ◌≢◌, inl, inr, true, Option, none, some, List, [], arith, Bool-cases, sub32,
}
use esp_reverse_tunneling_li.DataRing
use esp_reverse_tunneling_li.DataRing.{DataRing}
use esp_reverse_tunneling_li.DataRing.Order
use esp_reverse_tunneling_li.DataRing.Size
use esp_reverse_tunneling_li.RingApi.{RingApi, RingLaws}
use esp_reverse_tunneling_li.Env.{Env}
use esp_reverse_tunneling_li.Channel.{Slot}
use esp_reverse_tunneling_li.Transport.Closes.{
  Verdict, drained, verdict, drain_timeout_ms, eof_grace_ms,
}

module _ (env : Env) (api : RingApi) (laws : RingLaws api) where
  abbrev contents : Option (DataRing api.Ring) → List ℕ
  contents none = []
  contents (some d) = DataRing.Order.contents api laws d

  -- A missing ring is as good as a valid one.
  abbrev pub RingIsValid : Option (DataRing api.Ring) → Type 0
  RingIsValid none = Unit
  RingIsValid (some d) = DataRing.Order.IsValid api laws d

  contents-drained :
      (r : Option (DataRing api.Ring)) → RingIsValid r → drained env api r ≡ true → contents r ≡ []
  unfolding drained
  contents-drained none v t = refl
  contents-drained (some d) v t = (DataRing.Size.is_empty_lem api laws d v).0 t

  -- A slot with valid rings that is to be finalized within 15 s of the start of its close, and after at
  -- most three errors in a row, holds no byte in either ring, and its end was sent at least 200 ms before.
  pub verdict-finalize :
      (now : ℕ) (s : Slot env api)
      → RingIsValid s.to_local
      → RingIsValid s.to_remote
      → verdict env api now s ≡ Verdict.finalize
      → sub32 now s.close_start_ms ≤ drain_timeout_ms
      → s.consecutive_errors ≤ 3
      → (contents s.to_local ≡ [])
        × (contents s.to_remote ≡ [])
        × (s.eof_sent_ms ≢ 0)
        × (eof_grace_ms ≤ sub32 now s.eof_sent_ms)
  unfolding verdict
  verdict-finalize now s v v' f h k = elim (Bool-cases (drained env api s.to_local)) [
    | inl l ↦ elim (Bool-cases (drained env api s.to_remote)) [
      | inl r ↦ (
        contents-drained s.to_local v l,
        contents-drained s.to_remote v' r,
        ground (arith, f),
        ground (arith, f),
      )
      | inr r ↦ absurd (ground (arith, f, r))
    ]
    | inr l ↦ absurd (ground (arith, f, l))
  ]
