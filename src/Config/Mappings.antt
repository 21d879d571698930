-- ===== src/Config/Mappings.antt =====
-- The list of tunnel mappings (src/ssh_config.cpp) and how the tunnel changes it (src/ssh_tunnel.cpp).
use esp_reverse_tunneling_li.Prelude.{
  ℕ, zero, suc, ◌+◌, ◌<◌, ◌≡◌, refl, sym, ap, ◌∙◌, ◌⊎◌, inl, inr, Bool, true, false, ◌&&◌, ◌||◌,
  Option, none, some, List, [], ◌∷◌, ◌++◌, arith, ltb, ◌==◌, if◌then◌else◌, lt→ltb, Bool-cases,
  length, get_elem?, length-append,
}
use esp_reverse_tunneling_li.Config.Text.{same_text}
use esp_reverse_tunneling_li.Config.{SshConfiguration, TunnelConfig, default_mapping, under_lock}

unfoldable pub set_tunnel_config : SshConfiguration → TunnelConfig → SshConfiguration
unfolding under_lock
set_tunnel_config c mapping = under_lock (λ d. record d { tunnel_mappings = mapping ∷ [] }) c

unfoldable pub add_tunnel_mapping : SshConfiguration → TunnelConfig → SshConfiguration
unfolding under_lock
add_tunnel_mapping c mapping =
    under_lock (λ d. record d { tunnel_mappings = d.tunnel_mappings ++ (mapping ∷ []) }) c

-- `erase(begin() + index)`
unfoldable pub remove_at : ℕ → List TunnelConfig → List TunnelConfig
remove_at i [] = []
remove_at zero (m ∷ ms) = ms
remove_at (suc i) (m ∷ ms) = m ∷ remove_at i ms

unfoldable pub remove_tunnel_mapping : SshConfiguration → ℕ → Bool × SshConfiguration
unfolding remove_at
remove_tunnel_mapping c i =
    if c.mutex && ltb i (length c.tunnel_mappings)
    then (true, record c { tunnel_mappings = remove_at i c.tunnel_mappings })
    else (false, c)

unfoldable pub clear_tunnel_mappings : SshConfiguration → SshConfiguration
unfolding under_lock
clear_tunnel_mappings c = under_lock (λ d. record d { tunnel_mappings = [] }) c

-- Out of range, the first mapping; without any, the default one.
unfoldable pub get_tunnel_config : SshConfiguration → ℕ → TunnelConfig
get_tunnel_config c i = elim (get_elem? c.tunnel_mappings i) [
  | some m ↦ m
  | none ↦ elim (get_elem? c.tunnel_mappings 0) [ some m ↦ m | none ↦ default_mapping ]
]

-- The loop of `removeReverseTunnel`: the index of the first mapping with that host and port.
unfoldable pub find_mapping : ℕ → List TunnelConfig → List ℕ → ℕ → Option ℕ
unfolding same_text
find_mapping i [] host port = none
find_mapping i (m ∷ ms) host port =
    if same_text m.remote_bind_host host && (m.remote_bind_port == port)
    then some i
    else find_mapping (suc i) ms host port

-- The result is true when a mapping was found, whether or not it could be removed.
unfoldable pub remove_reverse_tunnel : SshConfiguration → List ℕ → ℕ → Bool × SshConfiguration
unfolding find_mapping remove_tunnel_mapping
remove_reverse_tunnel c host port = elim (find_mapping 0 c.tunnel_mappings host port) [
  | none ↦ (false, c)
  | some i ↦ (true, (remove_tunnel_mapping c i).1)
]

-- Removing the mapping behind the last one undoes an addition.
remove_at-append :
    (ms : List TunnelConfig) (m : TunnelConfig) → remove_at (length ms) (ms ++ (m ∷ [])) ≡ ms
unfolding remove_at
remove_at-append [] m = refl
remove_at-append (x ∷ ms) m = simp (remove_at-append ms m) refl

get_elem?-append_last :
    (ms : List TunnelConfig) (m : TunnelConfig) → get_elem? (ms ++ (m ∷ [])) (length ms) ≡ some m
get_elem?-append_last [] m = refl
get_elem?-append_last (x ∷ ms) m = simp (get_elem?-append_last ms m) refl

-- With a mutex, `addTunnelMapping` puts the mapping at the end, where `getTunnelConfig` finds it, and to
-- remove it there succeeds and gives back the configuration as it was.
pub remove-add_tunnel_mapping :
    (c : SshConfiguration) (m : TunnelConfig)
    → c.mutex ≡ true
    → (get_tunnel_config (add_tunnel_mapping c m) (length c.tunnel_mappings) ≡ m)
      × (remove_tunnel_mapping (add_tunnel_mapping c m) (length c.tunnel_mappings) ≡ (true, c))
unfolding get_tunnel_config add_tunnel_mapping remove_tunnel_mapping under_lock
remove-add_tunnel_mapping c m t =
    simp (t, below, remove_at-append c.tunnel_mappings m)
      (
        rw (get_elem?-append_last c.tunnel_mappings m, get_tunnel_config) refl,
        ap (λ b. (true, record c { mutex = b })) (sym t),
      )
  where
    below : ltb (length c.tunnel_mappings) (length (c.tunnel_mappings ++ (m ∷ []))) ≡ true
    below = lt→ltb _ _ (omega (arith, length-append c.tunnel_mappings (m ∷ [])))

-- A mapping with that host and port.
abbrev pub serves : List ℕ → ℕ → TunnelConfig → Bool
serves host port m = same_text m.remote_bind_host host && (m.remote_bind_port == port)

-- What `removeReverseTunnel` leaves: all but the first mapping with the host and port.
unfoldable pub without_first : List ℕ → ℕ → List TunnelConfig → List TunnelConfig
without_first host port [] = []
without_first host port (m ∷ ms) = if serves host port m then ms else m ∷ without_first host port ms

unfoldable pub any_serves : List ℕ → ℕ → List TunnelConfig → Bool
any_serves host port [] = false
any_serves host port (m ∷ ms) = serves host port m || any_serves host port ms

-- Where the loop ends, from any start.
find_mapping_lem :
    (k : ℕ) (ms : List TunnelConfig) (host : List ℕ) (port : ℕ)
    → ((any_serves host port ms ≡ false) × (find_mapping k ms host port ≡ none))
      ⊎ ((i : ℕ) × (any_serves host port ms ≡ true)
          × (find_mapping k ms host port ≡ some (k + i))
          × (i < length ms)
          × (remove_at i ms ≡ without_first host port ms))
unfolding find_mapping any_serves without_first remove_at
find_mapping_lem k [] host port = inl (refl, refl)
find_mapping_lem k (m ∷ ms) host port = elim (Bool-cases (serves host port m)) [
  | inl t ↦ inr (0, ground (arith, t), ground (arith, t), omega arith, ground (arith, t))
  | inr t ↦ elim (find_mapping_lem (suc k) ms host port) [
    | inl (a, f) ↦ inl (ground (arith, t, a), ground (arith, t, f))
    | inr (i, a, f, l, r) ↦
        inr (
          suc i,
          ground (arith, t, a),
          ground (arith, t, f),
          omega (arith, l),
          ground (arith, t, r),
        )
  ]
]

unserved :
    (host : List ℕ) (port : ℕ) (ms : List TunnelConfig)
    → any_serves host port ms ≡ false
    → ms ≡ without_first host port ms
unfolding any_serves without_first
unserved host port [] a = refl
unserved host port (m ∷ ms) a = ground (arith, unserved host port ms)

-- With a mutex, `removeReverseTunnel` answers whether some mapping has the host and port, and removes the
-- first such mapping and no other; without one the configuration stays.
pub remove_reverse_tunnel_lem :
    (c : SshConfiguration) (host : List ℕ) (port : ℕ)
    → c.mutex ≡ true
    → let (found, d) = remove_reverse_tunnel c host port in
      (found ≡ any_serves host port c.tunnel_mappings)
      × (d.tunnel_mappings ≡ without_first host port c.tunnel_mappings)
unfolding remove_reverse_tunnel remove_tunnel_mapping
remove_reverse_tunnel_lem c host port t = elim (find_mapping_lem 0 c.tunnel_mappings host port) [
  | inl (a, f) ↦ rw (f, remove_reverse_tunnel) (sym a, unserved host port c.tunnel_mappings a)
  | inr (i, a, f, l, r) ↦
      let at_i : find_mapping 0 c.tunnel_mappings host port ≡ some i =
        f ∙ ap (λ n. some n) (omega arith) in
      rw (at_i, remove_reverse_tunnel) (simp (t, lt→ltb i (length c.tunnel_mappings) l) (sym a, r))
]
