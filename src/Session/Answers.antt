-- ===== src/Session/Answers.antt =====
-- What `acceptChannel` makes of the answers of libssh2 (src/ssh_session.cpp).
use esp_reverse_tunneling_li.Prelude.{
  ℕ, ◌≡◌, refl, sym, ap, ap₂, ◌∙◌, inl, inr, Bool, true, false, not, Option, none, some, List, [],
  ◌∷◌, ◌++◌, append_assoc, leb, ◌==◌, if◌then◌else◌, Bool-cases, Option-cases, sub32,
}
use esp_reverse_tunneling_li.Env.{Env}
use esp_reverse_tunneling_li.AcceptError.{Codes}
use esp_reverse_tunneling_li.Config.{TunnelConfig}
use esp_reverse_tunneling_li.Session.Accept.{
  record_accept_success, record_accept_no_channel, Result, accepted, no_channel, after,
}
use esp_reverse_tunneling_li.Session.Lifecycle.{SshApi, ListenerEntry, SshSession}
use esp_reverse_tunneling_li.Session.Polling.{
  Poll, note_error, Answer, no_lock, channel, failed, poll_locked, Accepted, on_answer, poll_entry,
  poll_each, poll_of, accept_channel,
}

-- A wait for the lock that ran out, or an answer about a listener: a channel, or an error.
pub data Event : Type 0 where
  denied : Event
  gave erred : ℕ → ℕ → Event

abbrev pub event_of : ℕ → Option ℕ → ℕ → Event
event_of l (some c) err = gave l c
event_of l none err = erred l err

-- `log` is the history of the lock and of the answers, newest first, an error with the code that libssh2
-- then has for the session.
pub record PollLaws (env : Env) (ssh : SshApi env) : Type 0 where
  pub log : ℕ → env.World → List Event
  pub lock_log :
      (h t : ℕ) (w : env.World)
      → let (ok, w') = env.lock t w in log h w' ≡ (if ok then log h w else denied ∷ log h w)
  pub unlock_log : (h : ℕ) (w : env.World) → log h (env.unlock w) ≡ log h w
  pub millis_log : (h : ℕ) (w : env.World) → log h (env.millis w).1 ≡ log h w
  pub accept_log :
      (h l : ℕ) (w : env.World)
      → let (r, w') = ssh.forward_accept l w in
        log h w' ≡ event_of l r (ssh.last_errno h w') ∷ log h w

-- The answers among the events.
abbrev pub results : List Event → List Result
results [] = []
results (denied ∷ es) = results es
results (gave l c ∷ es) = accepted ∷ results es
results (erred l err ∷ es) = no_channel err ∷ results es

results-append : (es fs : List Event) → results (es ++ fs) ≡ results es ++ results fs
results-append [] fs = refl
results-append (denied ∷ es) fs = results-append es fs
results-append (gave l c ∷ es) fs = ap (◌∷◌ accepted) (results-append es fs)
results-append (erred l err ∷ es) fs = ap (◌∷◌ (no_channel err)) (results-append es fs)

-- The lock was not had for the listener, or libssh2 had an error for it.
abbrev pub Refused : ℕ → Event → Type 0
Refused l denied = Unit
Refused l (gave k c) = ⊥
Refused l (erred k err) = k ≡ l

-- These listeners were all asked, once and in order, and refused; those without a handle were passed
-- over. The events are newest first.
pub data Passed : List ListenerEntry → List Event → Type 0 where
  none_left : Passed [] []
  without_handle :
      {e : ListenerEntry} {es : List ListenerEntry} {new : List Event}
      → e.listener ≡ none
      → Passed es new
      → Passed (e ∷ es) new
  in_turn :
      {e : ListenerEntry} {es : List ListenerEntry} {new : List Event} (l : ℕ) (v : Event)
      → e.listener ≡ some l
      → Refused l v
      → Passed es new
      → Passed (e ∷ es) (new ++ (v ∷ []))

module _ (env : Env) (ssh : SshApi env) (laws : PollLaws env ssh) (codes : Codes) (h : ℕ) where
  -- How a poll of some listeners from the world `w` ends, behind a history of answers: the first one that
  -- had a channel gave the result, with its mapping, and those before it refused; or all refused. Each
  -- answer is in the history, and nothing else.
  pub data Polled (es : List ListenerEntry) (rs : List Result) (w : env.World)
      : Option (ℕ × TunnelConfig) × Poll env ssh × env.World → Type 0 where
    found :
        (c l : ℕ) (e : ListenerEntry) (before behind : List ListenerEntry) (new : List Event)
        {p : Poll env ssh} {w' : env.World}
        → es ≡ before ++ (e ∷ behind)
        → e.listener ≡ some l
        → Passed before new
        → laws.log h w' ≡ gave l c ∷ (new ++ laws.log h w)
        → p.accept ≡ after codes (accepted ∷ (results new ++ rs))
        → Polled es rs w (some (c, e.mapping), p, w')
    nothing :
        (new : List Event) {p : Poll env ssh} {w' : env.World}
        → Passed es new
        → laws.log h w' ≡ new ++ laws.log h w
        → p.accept ≡ after codes (results new ++ rs)
        → Polled es rs w (none, p, w')

  -- Behind a listener without a handle.
  skipped :
      (e : ListenerEntry) (es : List ListenerEntry) (rs : List Result) (w : env.World)
      (r : Accepted env ssh)
      → e.listener ≡ none
      → Polled es rs w r
      → Polled (e ∷ es) rs w r
  skipped e es rs w (some (c, m), p, w') n (found _ l x before behind new split is a g k) =
      found c l x (e ∷ before) behind new (ap (◌∷◌ e) split) is (without_handle n a) g k
  skipped e es rs w (none, p, w') n (nothing new a g k) = nothing new (without_handle n a) g k

  -- Behind one that refused.
  module _ (e : ListenerEntry) (es : List ListenerEntry) (rs : List Result) (w w1 : env.World)
      (l : ℕ) (v : Event) (handle : e.listener ≡ some l) (refused : Refused l v)
      (told : laws.log h w1 ≡ v ∷ laws.log h w) where
    logged : (new : List Event) → new ++ laws.log h w1 ≡ (new ++ (v ∷ [])) ++ laws.log h w
    logged new = ap (◌++◌ new) told ∙ sym (append_assoc new (v ∷ []) (laws.log h w))

    noted :
        (new : List Event)
        → results new ++ (results (v ∷ []) ++ rs) ≡ results (new ++ (v ∷ [])) ++ rs
    noted new =
        sym (append_assoc (results new) (results (v ∷ [])) rs)
        ∙ ap (λ q. q ++ rs) (sym (results-append new (v ∷ [])))

    turned_down :
        (r : Accepted env ssh) → Polled es (results (v ∷ []) ++ rs) w1 r → Polled (e ∷ es) rs w r
    turned_down (some (c, m), p, w') (found _ k x before behind new split is a g f) =
        found c k x (e ∷ before) behind (new ++ (v ∷ [])) (ap (◌∷◌ e) split) is
          (in_turn l v handle refused a) (g ∙ ap (◌∷◌ (gave k c)) (logged new))
          (f ∙ ap (λ q. after codes (accepted ∷ q)) (noted new))
    turned_down (none, p, w') (nothing new a g f) =
        nothing (new ++ (v ∷ [])) (in_turn l v handle refused a) (g ∙ logged new)
          (f ∙ ap (after codes) (noted new))

  -- What was told of one listener.
  data Told (l : ℕ) (w : env.World) : Answer env ssh × env.World → Type 0 where
    told_nothing : {w' : env.World} → laws.log h w' ≡ denied ∷ laws.log h w → Told l w (no_lock, w')
    told_channel :
        {c : ℕ} {w' : env.World}
        → laws.log h w' ≡ gave l c ∷ laws.log h w
        → Told l w (channel c, w')
    told_error :
        {err : ℕ} {w' : env.World}
        → laws.log h w' ≡ erred l err ∷ laws.log h w
        → Told l w (failed err, w')

  poll_locked_lem :
      (l : ℕ) (w : env.World) (r : Bool × env.World)
      → laws.log h r.1 ≡ (if r.0 then laws.log h w else denied ∷ laws.log h w)
      → Told l w (poll_locked env ssh h l r)
  unfolding poll_locked
  poll_locked_lem l w (false, w1) e = told_nothing e
  poll_locked_lem l w (true, w1) e =
      let (r, w2) = ssh.forward_accept l w1 in
      let same = laws.unlock_log h w2 in
      elim (Option-cases r) [
        | inl n ↦ rw n (
            told_error (
              same
              ∙ laws.accept_log h l w1
              ∙ ap₂ (λ q t. event_of l q (ssh.last_errno h w2) ∷ t) n e))
        | inr (c, n) ↦ rw n (
            told_channel (
              same
              ∙ laws.accept_log h l w1
              ∙ ap₂ (λ q t. event_of l q (ssh.last_errno h w2) ∷ t) n e))
      ]

  -- An error is noted, and the clock is read at most.
  note_error_lem :
      (err : ℕ) (p : Poll env ssh) (w : env.World)
      → ((note_error env ssh codes err p w).0.accept ≡ record_accept_no_channel codes p.accept err)
        × (laws.log h (note_error env ssh codes err p w).1 ≡ laws.log h w)
  unfolding note_error
  note_error_lem err p w = elim (Bool-cases (not (err == codes.channel_unknown))) [
    | inl a ↦ simp a (refl, refl)
    | inr a ↦ simp a (elim (Bool-cases (leb 1000 (sub32 (env.millis w).0 p.last_log_ms))) [
      | inl b ↦ simp b (refl, laws.millis_log h w)
      | inr b ↦ simp b (refl, laws.millis_log h w)
    ])
  ]

  -- The listeners behind one, from any world and behind any history.
  abbrev Rest : List ListenerEntry → Type 0
  Rest es =
      (rs : List Result) (p : Poll env ssh) (w : env.World)
      → p.accept ≡ after codes rs
      → Polled es rs w (poll_each env ssh codes h es p w)

  on_answer_lem :
      (e : ListenerEntry) (es : List ListenerEntry) (rs : List Result) (p : Poll env ssh) (l : ℕ)
      (w : env.World) (a : Answer env ssh × env.World)
      → e.listener ≡ some l
      → p.accept ≡ after codes rs
      → Told l w a
      → Rest es
      → Polled
          (e ∷ es)
          rs
          w
          (on_answer env ssh (λ p' w'. poll_each env ssh codes h es p' w') codes e p a)
  unfolding on_answer after
  on_answer_lem e es rs p l w (no_lock, w1) is k (told_nothing t) rest =
      turned_down e es rs w w1 l denied is tt t _ (rest rs p w1 k)
  on_answer_lem e es rs p l w (channel c, w1) is k (told_channel t) rest =
      found c l e [] es [] refl is none_left t (ap record_accept_success k)
  on_answer_lem e es rs p l w (failed err, w1) is k (told_error t) rest =
      let (p', w2) = note_error env ssh codes err p w1 in
      let (f, g) = note_error_lem err p w1 in
      turned_down e es rs w w2 l (erred l err) is refl (g ∙ t) _
        (rest (no_channel err ∷ rs) p' w2 (f ∙ ap (λ q. record_accept_no_channel codes q err) k))

  poll_entry_lem :
      (e : ListenerEntry) (m : Option ℕ) (es : List ListenerEntry) (rs : List Result)
      (p : Poll env ssh) (w : env.World)
      → e.listener ≡ m
      → p.accept ≡ after codes rs
      → Rest es
      → Polled
          (e ∷ es)
          rs
          w
          (poll_entry env ssh (λ p' w'. poll_each env ssh codes h es p' w') codes h e m p w)
  unfolding poll_entry
  poll_entry_lem e none es rs p w is k rest = skipped e es rs w _ is (rest rs p w k)
  poll_entry_lem e (some l) es rs p w is k rest =
      on_answer_lem e es rs p l w (poll_locked env ssh h l (env.lock 50 w)) is k
        (poll_locked_lem l w (env.lock 50 w) (laws.lock_log h 50 w)) rest

  poll_each_lem : (es : List ListenerEntry) → Rest es
  unfolding poll_each
  poll_each_lem [] rs p w k = nothing [] none_left refl k
  poll_each_lem (e ∷ es) rs p w k = poll_entry_lem e e.listener es rs p w refl k (poll_each_lem es)

  -- On a session with a handle whose count of fatal errors is that of a history of answers,
  -- `acceptChannel` asks the listeners that have a handle in order, each once, until one gives a channel;
  -- without the lock for one it goes on with the next. It returns the channel that was given, with the
  -- mapping of the listener that gave it, or none when all have refused. The history goes on with each
  -- answer that came, and nothing else.
  pub accept_channel_lem :
      (s : SshSession) (rs : List Result) (w : env.World)
      → s.session ≡ some h
      → s.accept ≡ after codes rs
      → let (r, s', w') = accept_channel env ssh codes s w in
        Polled s.listeners rs w (r, poll_of env ssh s', w') × (s'.listeners ≡ s.listeners)
  unfolding accept_channel
  accept_channel_lem s rs w e k =
      rw (e, accept_channel) (poll_each_lem s.listeners rs (poll_of env ssh s) w k, refl)
