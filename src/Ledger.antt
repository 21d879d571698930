-- ===== src/Ledger.antt =====
-- A count of what is done with sockets and channels outside the program: the sockets opened and
-- closed, and the channels that `libssh2_channel_free` was called on, whatever it answered. It says
-- which call does what, so that nothing taken can be lost without a trace.
use esp_reverse_tunneling_li.Prelude.{
  ℕ, ◌+◌, ◌≡◌, Bool, false, List, [], ◌∷◌, ◌++◌, arith, ◌==◌, if◌then◌else◌,
}
use esp_reverse_tunneling_li.Env.{Env}

pub data Deed : Type 0 where
  opened closed freed : ℕ → Deed

-- Whether two deeds are the same.
abbrev pub same : Deed → Deed → Bool
same (opened a) (opened b) = a == b
same (closed a) (closed b) = a == b
same (freed a) (freed b) = a == b
same _ _ = false

abbrev pub times : Deed → List Deed → ℕ
times d [] = 0
times d (e ∷ es) = (if same d e then 1 else 0) + times d es

pub times-append : (d : Deed) (es fs : List Deed) → times d (es ++ fs) ≡ times d es + times d fs
times-append d [] fs = omega arith
times-append d (e ∷ es) fs = omega (arith, times-append d es fs)

module _ (env : Env) (count : Deed → env.World → ℕ) where
  -- What was done between two worlds.
  pub record Does (w : env.World) (es : List Deed) (w' : env.World) : Type 0 where
    pub each : (d : Deed) → count d w' ≡ count d w + times d es

  pub Does-nothing : (w : env.World) → Does w [] w
  Does-nothing w = record { each = λ d. omega arith }

  pub Does-trans :
      {w w' w'' : env.World} {es fs : List Deed}
      → Does w es w'
      → Does w' fs w''
      → Does w (es ++ fs) w''
  Does-trans {es} {fs} a b = record {
    each = λ d. omega (arith, a.each d, b.each d, times-append d es fs);
  }

-- Each operation of `Env` closes one socket, frees one channel, or does neither.
pub record Ledger (env : Env) : Type 0 where
  pub count : Deed → env.World → ℕ
  pub millis_does : (w : env.World) → Does env count w [] (env.millis w).1
  pub lock_does : (t : ℕ) (w : env.World) → Does env count w [] (env.lock t w).1
  pub unlock_does : (w : env.World) → Does env count w [] (env.unlock w)
  pub channel_close_does : (c : ℕ) (w : env.World) → Does env count w [] (env.channel_close c w).1
  pub channel_free_does :
      (c : ℕ) (w : env.World) → Does env count w (freed c ∷ []) (env.channel_free c w).1
  pub set_nonblocking_does :
      (c : ℕ) (w : env.World) → Does env count w [] (env.channel_set_nonblocking c w)
  pub socket_close_does :
      (fd : ℕ) (w : env.World) → Does env count w (closed fd ∷ []) (env.socket_close fd w)
