-- ===== src/Listener/Session/Laws.antt =====
-- internal/runtime/listener/server.go: what the loop of a session keeps.
use awiki_cli.Base.{
  ℕ, ◌≤◌, ◌≡◌, refl, ◌⊎◌, inl, inr, true, false, [], ◌∷◌, Option, none, some, arith,
}
use awiki_cli.Listener.Session.{
  Failure, Phase, connecting, serving, sleeping, ended, Session, session_reconnect_base_delay,
  session_reconnect_max_delay, min_duration, close, close_some, close_other, mark_connected,
  mark_disconnected, close_current_client, signal_initial, longer, dialled, lost, Step, done,
  refused, connect, drop, stop, wake, cancel, close_all, record_error, Steps, here, then_step,
}

abbrev pub IsUp : Session → Type 0
IsUp s = (s.connected ≡ true) × (c : ℕ) × (s.client ≡ some c) × (s.opened ≡ c ∷ [])

abbrev pub IsDown : Session → Type 0
IsDown s = (s.connected ≡ false) × (s.client ≡ none) × (s.opened ≡ [])

-- A session that serves may have its client, which is then the only open connection; any other session
-- has none.
abbrev pub Holds : Phase → Session → Type 0
Holds serving s = IsUp s ⊎ IsDown s
Holds _ s = IsDown s

pub record IsSteady (s : Session) : Type 0 where
  pub least : session_reconnect_base_delay ≤ s.delay
  pub most : s.delay ≤ session_reconnect_max_delay
  pub holds : Holds s.phase s

close_one : (c : ℕ) → close c (c ∷ []) ≡ []
unfolding close
close_one c = ground arith

Holds-idle : (s : Session) → s.phase ≡ connecting → Holds s.phase s → IsDown s
Holds-idle s e h = rw e at h

Holds-sleeping : (s : Session) → s.phase ≡ sleeping → Holds s.phase s → IsDown s
Holds-sleeping s e h = rw e at h

IsUp-or_IsDown : (s : Session) (p : Phase) → Holds p s → IsUp s ⊎ IsDown s
IsUp-or_IsDown s connecting h = inr h
IsUp-or_IsDown s serving h = h
IsUp-or_IsDown s sleeping h = inr h
IsUp-or_IsDown s ended h = inr h

Holds-down : (s : Session) (p : Phase) → IsDown s → Holds p s
Holds-down s connecting h = h
Holds-down s serving h = inr h
Holds-down s sleeping h = h
Holds-down s ended h = h

close_nil : (o : Option ℕ) → close_some o [] ≡ []
unfolding close_some close
close_nil none = refl
close_nil (some c) = refl

close_twice : (c : ℕ) (o : Option ℕ) → close c (close_some o (c ∷ [])) ≡ []
unfolding close_some close
close_twice c none = ground arith
close_twice c (some d) = ground arith

closed_client : (s : Session) (p : Phase) → Holds p s → close_some s.client s.opened ≡ []
closed_client s p h = elim (IsUp-or_IsDown s p h) [
  | inl (a, c, f, g) ↦ rw (f, g) (unfold close_some in close_one c)
  | inr (a, b, c) ↦ rw c (close_nil s.client)
]

closed_lost :
    (s : Session) (p : Phase) → Holds p s → close_some s.client (close_some s.local s.opened) ≡ []
closed_lost s p h = elim (IsUp-or_IsDown s p h) [
  | inl (a, c, f, g) ↦ rw (f, g) (unfold close_some in close_twice c s.local)
  | inr (a, b, c) ↦ rw (c, close_nil s.local) (close_nil s.client)
]

-- A step keeps the delay within its bounds and the connections as the phase wants them.
pub Step-IsSteady : (s t : Session) → Step s t → IsSteady s → IsSteady t
unfolding close_current_client close_some mark_disconnected signal_initial mark_connected dialled
    close_other lost longer min_duration
Step-IsSteady _ _ (done s e) k =
    let (a, b, c) = Holds-idle s e k.holds in
    record { least = k.least; most = k.most; holds = (refl, refl, rw (b, c) refl) }
Step-IsSteady _ _ (refused s x e) k =
    let (a, b, c) = Holds-idle s e k.holds in
    record { least = k.least; most = k.most; holds = (refl, refl, rw (b, c) refl) }
Step-IsSteady _ _ (connect s d n e) k =
    let (a, b, c) = Holds-idle s e k.holds in
    record { least = omega arith; most = omega arith; holds = inl (refl, n, refl, rw (b, c) refl) }
Step-IsSteady _ _ (drop s x e) k = record {
  least = k.least;
  most = k.most;
  holds = (refl, refl, closed_lost s s.phase k.holds);
}
Step-IsSteady _ _ (stop s x e) k = record {
  least = k.least;
  most = k.most;
  holds = (refl, refl, closed_lost s s.phase k.holds);
}
Step-IsSteady _ _ (wake s e) k = record {
  least = ground (arith, k.least);
  most = ground (arith, k.most);
  holds = Holds-sleeping s e k.holds;
}
Step-IsSteady _ _ (cancel s e) k = record {
  least = k.least;
  most = k.most;
  holds = Holds-sleeping s e k.holds;
}
Step-IsSteady _ _ (close_all s) k = record {
  least = k.least;
  most = k.most;
  holds = Holds-down _ s.phase (refl, refl, closed_client s s.phase k.holds);
}
Step-IsSteady _ _ (record_error s x) k = record {
  least = k.least;
  most = k.most;
  holds = Holds-down _ s.phase (refl, refl, closed_client s s.phase k.holds);
}

-- Whatever the connections do and whenever the supervisor closes the session or records an error in
-- it, its delay stays between the least and the most, it is connected only while it serves, and then its
-- client is the only open connection; where it is not connected it has no client and no connection is open.
pub steps-IsSteady : (s t : Session) → Steps s t → IsSteady s → IsSteady t
steps-IsSteady s _ here k = k
steps-IsSteady s _ (then_step t u p q) k = Step-IsSteady t u q (steps-IsSteady s t p k)

Step-initial :
    (s t : Session) (r : Option Failure) → Step s t → s.initial ≡ some r → t.initial ≡ some r
unfolding close_current_client close_some mark_disconnected signal_initial mark_connected dialled
    close_other lost longer
Step-initial _ _ r (done s e) i = i
Step-initial _ _ r (refused s x e) i = rw i refl
Step-initial _ _ r (connect s d n e) i = rw i refl
Step-initial _ _ r (drop s x e) i = i
Step-initial _ _ r (stop s x e) i = i
Step-initial _ _ r (wake s e) i = i
Step-initial _ _ r (cancel s e) i = i
Step-initial _ _ r (close_all s) i = i
Step-initial _ _ r (record_error s x) i = i

-- The result that was first signalled is the one that stays.
pub steps-initial :
    (s t : Session) (r : Option Failure) → Steps s t → s.initial ≡ some r → t.initial ≡ some r
steps-initial s _ r here i = i
steps-initial s _ r (then_step t u p q) i = Step-initial t u r q (steps-initial s t r p i)
