-- ===== src/Headscale/Supervisor/Returns.antt =====
-- How Start ends: what each of its results means, and that the fuel of its loop is enough.
use agenthub_server.Base.{
  Text, ℕ, zero, suc, ◌+◌, ◌*◌, ◌/◌, ◌≤◌, ◌<◌, ◌≡◌, refl, ap, true, false, Option, none, some, inl,
  inr, arith, eqb, ltb, ◌∙◌, Bool-cases,
}
use agenthub_server.Headscale.Config.{Options, Printer, render_config}
use agenthub_server.Headscale.Supervisor.{
  Answer, Outside, Started, poll_interval, slept, after_poll, poll, wait_ready, config_path,
  serve_args, start_with, start, status, refused, silent, ready, no_binary, no_data_dir, no_config,
  not_written, not_spawned, exited_early, not_ready, blocked,
}

-- What the end of the polls tells: nil is returned of a subprocess that was running and answered a
-- poll begun by the deadline with 200, and the polls block only on one that is never answered.
abbrev pub IsPolled : Outside → ℕ → Started → Type 0
IsPolled out deadline (ready t) =
    (t ≤ deadline) × (out.exited t ≡ false) × (took : ℕ) × (out.health t ≡ status 200 took)
IsPolled out deadline exited_early = (t : ℕ) × (t ≤ deadline) × (out.exited t ≡ true)
IsPolled out deadline blocked =
    (t : ℕ) × (t ≤ deadline) × (out.exited t ≡ false) × (out.health t ≡ silent)
IsPolled out deadline not_ready = Unit
IsPolled out deadline r = ⊥

-- The polls come to an end.
abbrev Ends : Outside → ℕ → Option Started → Type 0
Ends out deadline o = (r : Started) × (o ≡ some r) × IsPolled out deadline r

answer-Ends :
    (out : Outside) (deadline now : ℕ) (go_on : ℕ → Option Started) (a : Answer)
    → now ≤ deadline
    → out.exited now ≡ false
    → out.health now ≡ a
    → ((later : ℕ) → now + poll_interval ≤ later → Ends out deadline (go_on later))
    → Ends out deadline (after_poll out now go_on a)
answer-Ends out deadline now go_on (status code took) in_time running answered rest =
    elim (Bool-cases (eqb code 200)) [
      | inl good ↦
          rw (good, after_poll)
            (
              ready now,
              refl,
              (in_time, running, took, answered ∙ ap (λ c. status c took) (ground (arith, good))),
            )
      | inr bad ↦ rw (bad, after_poll) (rest (slept out now took) (ground arith))
    ]
answer-Ends out deadline now go_on (refused took) in_time running answered rest =
    rest (slept out now took) (ground arith)
answer-Ends out deadline now go_on silent in_time running answered rest =
    (blocked, refl, (now, in_time, running, answered))

poll-Ends :
    (out : Outside) (deadline fuel now : ℕ)
    → deadline < now + fuel * poll_interval
    → Ends out deadline (poll out deadline (suc fuel) now)
unfolding poll
poll-Ends out deadline zero now enough = (not_ready, ground arith, tt)
poll-Ends out deadline (suc fuel) now enough = elim (Bool-cases (ltb deadline now)) [
  | inl late ↦ rw (late, poll) (not_ready, refl, tt)
  | inr early ↦
      rw (early, poll)
        (elim (Bool-cases (out.exited now)) [
          | inl gone ↦ rw gone (exited_early, refl, (now, ground arith, gone))
          | inr running ↦ rw running (
              answer-Ends out deadline now (poll out deadline (suc fuel)) (out.health now)
                (ground arith) running refl
                (λ later after. poll-Ends out deadline fuel later (ground arith)))
        ])
]

-- The configuration was rendered and written, and the subprocess spawned on it.
pub record IsSpawned (out : Outside) (p : Printer) (o : Options) : Type 0 where
  pub config : Text
  pub rendered : render_config p o ≡ some config
  pub written : out.writes (config_path p o) config ≡ true
  pub spawned : out.spawns o.binary_path (serve_args (config_path p o)) ≡ true

-- What each result of Start means.
abbrev pub IsRight : Outside → Printer → Options → ℕ → Started → Type 0
IsRight out p o now no_binary = out.has_binary o.binary_path ≡ false
IsRight out p o now no_data_dir = out.makes_dir o.data_dir ≡ false
IsRight out p o now no_config = render_config p o ≡ none
IsRight out p o now not_written =
    (config : Text) × (render_config p o ≡ some config)
    × (out.writes (config_path p o) config ≡ false)
IsRight out p o now not_spawned = out.spawns o.binary_path (serve_args (config_path p o)) ≡ false
IsRight out p o now r = IsPolled out (now + o.ready_timeout) r × IsSpawned out p o

spawned-IsRight :
    (out : Outside) (p : Printer) (o : Options) (now : ℕ) (r : Started)
    → IsSpawned out p o
    → IsPolled out (now + o.ready_timeout) r
    → IsRight out p o now r
spawned-IsRight out p o now (ready t) spawned polled = (polled, spawned)
spawned-IsRight out p o now exited_early spawned polled = (polled, spawned)
spawned-IsRight out p o now not_ready spawned polled = (polled, spawned)
spawned-IsRight out p o now blocked spawned polled = (polled, spawned)
spawned-IsRight out p o now no_binary spawned polled = absurd polled
spawned-IsRight out p o now no_data_dir spawned polled = absurd polled
spawned-IsRight out p o now no_config spawned polled = absurd polled
spawned-IsRight out p o now not_written spawned polled = absurd polled
spawned-IsRight out p o now not_spawned spawned polled = absurd polled

-- The fuel of wait_ready covers the time up to the deadline.
waits :
    (out : Outside) (o : Options) (now : ℕ)
    → Ends out (now + o.ready_timeout) (wait_ready out o now)
unfolding wait_ready
waits out o now =
    poll-Ends out (now + o.ready_timeout) (suc (o.ready_timeout / poll_interval)) now (omega arith)

with_config :
    (out : Outside) (p : Printer) (o : Options) (now : ℕ) (c : Option Text)
    → render_config p o ≡ c
    → (r : Started) × (start_with out p o c now ≡ some r) × IsRight out p o now r
unfolding start_with
with_config out p o now none e = (no_config, refl, e)
with_config out p o now (some config) e = elim (Bool-cases (out.writes (config_path p o) config)) [
  | inr failed ↦ rw (failed, start_with) (not_written, refl, (config, e, failed))
  | inl written ↦
      rw (written, start_with)
        (elim (Bool-cases (out.spawns o.binary_path (serve_args (config_path p o)))) [
          | inr failed ↦ rw (failed, start_with) (not_spawned, refl, failed)
          | inl spawned ↦
              rw (spawned, start_with)
                (let (r, ends, polled) = waits out o now in
                  let whole : IsSpawned out p o = record {
                    config = config;
                    rendered = e;
                    written = written;
                    spawned = spawned;
                  } in
                  (r, ends, spawned-IsRight out p o now r whole polled))
        ])
]

-- The loop of Start never runs out of its fuel, one poll for each interval up to the deadline and two
-- more, whatever the outside does, and its results tell: nil, that the configuration was
-- rendered and written, the subprocess spawned on it, and that it was running and answered 200 to a
-- poll begun by the deadline, however long that answer took; an error other than the timeout, that its
-- step failed or the subprocess had exited by the deadline. Start does not return at all
-- only where the subprocess never answers a poll that was begun by the deadline.
pub start_returns :
    (out : Outside) (p : Printer) (o : Options) (now : ℕ)
    → (r : Started) × (start out p o now ≡ some r) × IsRight out p o now r
unfolding start
start_returns out p o now = elim (Bool-cases (out.has_binary o.binary_path)) [
  | inr failed ↦ rw (failed, start) (no_binary, refl, failed)
  | inl there ↦
      rw (there, start)
        (elim (Bool-cases (out.makes_dir o.data_dir)) [
          | inr failed ↦ rw (failed, start) (no_data_dir, refl, failed)
          | inl made ↦ rw (made, start) (with_config out p o now (render_config p o) refl)
        ])
]
