-- ===== src/Headscale/Supervisor.antt =====
-- internal/headscale/supervisor.go: starting the subprocess and waiting until it answers.
-- Start polls on a clock that only the calls move; a poll that the server never answers blocks it.
pub mod Returns
use agenthub_server.Base.{
  Text, str, ℕ, zero, suc, ◌+◌, ◌*◌, ◌/◌, Bool, true, false, not, Option, none, some, List, [], ◌∷◌,
  eqb, ltb, has, if◌then◌else◌,
}
use agenthub_server.World.{second}
use agenthub_server.Headscale.Config.{Options, Printer, render_config}

-- What http.Get of /health does: a status after a time, an error after a time, or nothing ever.
pub data Answer : Type 0 where
  status : ℕ → ℕ → Answer
  refused : ℕ → Answer
  silent : Answer

-- What the supervisor sees of the outside, at a time: os.Stat of the binary, os.MkdirAll of a
-- directory, os.WriteFile of a path with a text and cmd.Start of a binary with its arguments, each
-- true where it succeeds; whether the subprocess has exited; the answer to a GET; and by how much
-- time.Sleep oversleeps.
pub record Outside : Type 0 where
  pub has_binary : Text → Bool
  pub makes_dir : Text → Bool
  pub writes : Text → Text → Bool
  pub spawns : Text → List Text → Bool
  pub exited : ℕ → Bool
  pub health : ℕ → Answer
  pub oversleep : ℕ → ℕ

-- How Start ends: nil at a time, one of its errors, or a poll that blocks for good.
pub data Started : Type 0 where
  ready : ℕ → Started
  no_binary no_data_dir no_config not_written not_spawned exited_early not_ready : Started
  blocked : Started

-- NewSupervisor: a zero timeout is ten seconds.
abbrev pub or_ten_seconds : ℕ → ℕ
or_ten_seconds t = if eqb t 0 then 10 * second else t

unfoldable pub new_supervisor : Options → Options
new_supervisor o = record o {
  shutdown_timeout = or_ten_seconds o.shutdown_timeout;
  ready_timeout = or_ten_seconds o.ready_timeout;
}

-- 100*time.Millisecond
abbrev pub poll_interval : ℕ
poll_interval = 100000000

-- The time after a poll that took `took` and the sleep behind it
abbrev pub slept : Outside → ℕ → ℕ → ℕ
slept out now took = now + took + poll_interval + out.oversleep now

-- What a poll's answer ends with, where it does not go on at a later time.
abbrev pub after_poll : Outside → ℕ → (ℕ → Option Started) → Answer → Option Started
after_poll out now go_on (status code took) = elim (eqb code 200) [
  | true ↦ some (ready now)
  | false ↦ go_on (slept out now took)
]
after_poll out now go_on (refused took) = go_on (slept out now took)
after_poll out now go_on silent = some blocked

-- The for loop of Start on fuel; `none` is the end of the fuel.
unfoldable pub poll : Outside → ℕ → ℕ → ℕ → Option Started
poll out deadline zero now = none
poll out deadline (suc fuel) now = elim (ltb deadline now) [
  | true ↦ some not_ready
  | false ↦ elim (out.exited now) [
    | true ↦ some exited_early
    | false ↦ after_poll out now (poll out deadline fuel) (out.health now)
  ]
]

-- One poll in each interval up to the deadline, and the one that sees the deadline passed
abbrev pub poll_fuel : Options → ℕ
poll_fuel o = suc (suc (o.ready_timeout / poll_interval))

unfoldable pub wait_ready : Outside → Options → ℕ → Option Started
wait_ready out o now = poll out (now + o.ready_timeout) (poll_fuel o) now

abbrev pub config_path : Printer → Options → Text
config_path p o = p.join o.data_dir (str "config.yaml")

abbrev pub serve_args : Text → List Text
serve_args path = str "serve" ∷ str "-c" ∷ path ∷ []

unfoldable pub start_with : Outside → Printer → Options → Option Text → ℕ → Option Started
start_with out p o none now = some no_config
start_with out p o (some config) now = elim (out.writes (config_path p o) config) [
  | false ↦ some not_written
  | true ↦ elim (out.spawns o.binary_path (serve_args (config_path p o))) [
    | false ↦ some not_spawned
    | true ↦ wait_ready out o now
  ]
]

unfoldable pub start : Outside → Printer → Options → ℕ → Option Started
start out p o now = elim (out.has_binary o.binary_path) [
  | false ↦ some no_binary
  | true ↦ elim (out.makes_dir o.data_dir) [
    | false ↦ some no_data_dir
    | true ↦ start_with out p o (render_config p o) now
  ]
]
