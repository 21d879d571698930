-- ===== src/AcceptDiag/Tests.antt =====
-- A history with an accept in it.
use esp_reverse_tunneling_li.Prelude.{◌≡◌, true, [], ◌∷◌}
use esp_reverse_tunneling_li.AcceptDiag.{snapshot}
use esp_reverse_tunneling_li.AcceptDiag.Counts.{poll, accept, no_channel, after, snapshot_counts}

snapshot_counts_example :
    let s =
      snapshot (after (poll 30 ∷ no_channel 37 true ∷ poll 20 ∷ accept 10 ∷ poll 5 ∷ [])) 40 in
    (s.polls_since_accept ≡ 2)
    × (s.eagain_since_accept ≡ 1)
    × (s.errors_since_accept ≡ 0)
    × (s.lock_misses_since_accept ≡ 0)
    × (s.total_polls ≡ 3)
    × (s.total_accepts ≡ 1)
snapshot_counts_example =
    snapshot_counts (poll 30 ∷ no_channel 37 true ∷ poll 20 ∷ accept 10 ∷ poll 5 ∷ []) 40
