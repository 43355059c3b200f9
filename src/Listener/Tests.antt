-- ===== src/Listener/Tests.antt =====
-- A run of the loop of a session: it connects, loses the connection, waits and is refused.
use awiki_cli.Base.{◌≡◌, refl, arith, none, some}
use awiki_cli.Text.{text}
use awiki_cli.Listener.Session.{
  failure, Phase, Session, new_session, min_duration, mark_connected, mark_disconnected,
  signal_initial, longer, dialled, lost, refused, connect, drop, wake, record_error, Steps, here,
  then_step,
}
use awiki_cli.Listener.Session.Laws.{IsSteady, steps-IsSteady}

new_session-IsSteady : IsSteady new_session
new_session-IsSteady = record {
  least = omega arith;
  most = omega arith;
  holds = (refl, refl, refl);
}

abbrev served : Session
served = signal_initial none (mark_connected (text "did:me") 1 (dialled 1 new_session))

-- The supervisor records an error while the session serves.
abbrev failed : Session
failed = mark_disconnected (some (failure (text "late"))) served

abbrev waiting : Session
waiting = lost (some (failure (text "eof"))) (record failed { phase = Phase.sleeping })

abbrev again : Session
again = signal_initial (some (failure (text "no"))) (
    mark_disconnected (some (failure (text "no")))
      (record (longer waiting) { phase = Phase.sleeping }))

run : Steps new_session again
unfolding longer dialled lost mark_connected mark_disconnected signal_initial
run =
    then_step (longer waiting) again
      (then_step waiting (longer waiting)
        (then_step failed waiting
          (then_step served failed
            (then_step new_session served here (connect new_session (text "did:me") 1 refl))
            (record_error served (failure (text "late"))))
          (drop failed (some (failure (text "eof"))) refl))
        (wake waiting refl))
      (refused (longer waiting) (failure (text "no")) refl)

doubled : again.delay ≡ 2000000000
unfolding longer dialled lost mark_connected mark_disconnected signal_initial min_duration
doubled = refl

steps-IsSteady_example : IsSteady again
steps-IsSteady_example = steps-IsSteady new_session again run new_session-IsSteady
