-- ===== src/Tests/Sessions.antt =====
-- Two processes that take the lease of one run, in src/rex/store/repository.py.
use tiktok_techjam_recsys_ag.Prelude.{ℕ, none, some, if◌then◌else◌, ◌==◌, List, [], ◌∷◌}
use tiktok_techjam_recsys_ag.Prelude.Int.{ℤ, pos, int_eq}
use tiktok_techjam_recsys_ag.Prelude.Decimal.{Float}
use tiktok_techjam_recsys_ag.Store.Sessions.{Host, no_process, delivered}
use tiktok_techjam_recsys_ag.Store.Sessions.Fades.{SingleActive}
use tiktok_techjam_recsys_ag.Store.Calls.{Call, history, empty}
use tiktok_techjam_recsys_ag.Store.Calls.Exclusive.{history-SingleActive}
use tiktok_techjam_recsys_ag.Tests.Histories.{env, spec}

-- The process 7 is gone; the process 9 runs.
abbrev host : ℤ → Host
host own = record {
  hostname = "h";
  process_id = own;
  kill = λ pid. if pid == pos 7 then no_process else delivered;
  seconds = λ x. pos 1000;
}

abbrev one_second : Float
one_second = record { mantissa = pos 1; places = 0 }

-- The second process takes the lease over; the third one is refused while the second one runs.
abbrev calls : List (ℕ × Call)
calls =
    (1, Call.create_run spec)
    ∷ (2, Call.open_session (host (pos 7)) "s1" "r1" (some (pos 7)) (some "h") none [] none)
    ∷ (3, Call.heartbeat "s1" one_second none none)
    ∷ (4, Call.open_session (host (pos 9)) "s2" "r1" (some (pos 9)) (some "h") none [] none)
    ∷ (5, Call.open_session (host (pos 11)) "s3" "r1" (some (pos 11)) (some "h") none [] none)
    ∷ (6, Call.close_session "s2" "finished" none none none)
    ∷ []

history-SingleActive_example : SingleActive (history env calls empty).process_sessions
history-SingleActive_example = history-SingleActive env calls
