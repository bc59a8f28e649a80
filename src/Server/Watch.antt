-- ===== src/Server/Watch.antt =====
-- The loop of WATCH in handle_client of src/server.cpp. Whether the answer to the METRICS of each
-- round is OK, and what each recv on the socket brings, are arguments; the texts that are sent are
-- left out.
pub mod Rounds
use kv_store_project.Prelude.{
  ℕ, zero, suc, ◌+◌, ◌*◌, Bool, true, false, ◌&&◌, ◌||◌, Option, none, some, leb, ltb,
  if◌then◌else◌,
}
use kv_store_project.Prelude.Text.{Bytes, codes, bytes_eq}
use kv_store_project.Server.Parse.{trim, to_upper}

-- A text, up to its first NUL, nothing yet (EAGAIN), the end of the connection (0), or another
-- error
pub data Poll : Type 0 where
  input : Bytes → Poll
  nothing closed broken : Poll

-- The texts that end the loop, and the errors; the end of the connection does not.
unfoldable pub stops_watch : Poll → Bool
unfolding bytes_eq trim to_upper
stops_watch (input text) =
    let word = to_upper (trim text) in
    bytes_eq word (codes "STOP")
    || bytes_eq word (codes "EXIT")
    || bytes_eq word (codes "Q")
    || bytes_eq word (codes "QUIT")
stops_watch broken = true
stops_watch nothing = false
stops_watch closed = false

-- `maxRefreshes`
abbrev pub max_refreshes : ℕ
max_refreshes = 60

-- How the loop has ended: the refreshes, the polls, and `stopWatch`
pub record Watched : Type 0 where
  pub refreshes : ℕ
  pub polled : ℕ
  pub stopped : Bool

-- "stopped by user", or "auto-stopped"
abbrev pub stopped_by_user : Watched → Bool
stopped_by_user r = r.stopped && ltb r.refreshes max_refreshes

module _ (ok : ℕ → Bool) (polls : ℕ → Poll) (interval : ℕ) where
  -- The chunks of a tenth of a second, from poll number `t` on
  unfoldable pub sleep_loop : ℕ → ℕ → ℕ × Bool
  sleep_loop zero t = (t, false)
  sleep_loop (suc left) t = elim (stops_watch (polls t)) [
    | true ↦ (t + 1, true)
    | false ↦ sleep_loop left (t + 1)
  ]

  -- The rounds, of which `fuel` may be looked at; `none` where they are used up.
  unfoldable pub watch_loop : ℕ → ℕ → ℕ → ℕ → Option Watched
  unfolding sleep_loop
  watch_loop zero round count t = none
  watch_loop (suc fuel) round count t =
      let count' = if ok round then count + 1 else count in
      let (t', stop) = sleep_loop (interval * 10) t in
      elim (leb max_refreshes count) [
        | true ↦ some (record { refreshes = count; polled = t; stopped = false })
        | false ↦ elim stop [
          | true ↦ some (record { refreshes = count'; polled = t'; stopped = true })
          | false ↦ watch_loop fuel (round + 1) count' t'
        ]
      ]

  unfoldable pub watch_mode : ℕ → Option Watched
  unfolding watch_loop
  watch_mode fuel = watch_loop fuel 0 0 0
