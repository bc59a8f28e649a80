-- ===== src/Server/Watch/Rounds.antt =====
-- When the loop of WATCH ends, and when it never does.
use kv_store_project.Prelude.{
  ℕ, zero, suc, ◌+◌, ◌*◌, ◌≤◌, ◌<◌, ◌≡◌, refl, Bool, true, false, none, arith, Bool-cases, inl, inr,
}
use kv_store_project.Server.Watch.{Poll, stops_watch, sleep_loop, watch_loop, watch_mode}

module _ (ok : ℕ → Bool) (polls : ℕ → Poll) (interval : ℕ) where
  -- No recv from `a` to before `b` ends the loop.
  abbrev pub Quiet : ℕ → ℕ → Type 0
  Quiet a b = (t : ℕ) → a ≤ t → t < b → stops_watch (polls t) ≡ false

  -- A sleep that nothing ends takes all its polls.
  sleep_loop-Quiet :
      (left t : ℕ) → Quiet t (t + left) → sleep_loop ok polls interval left t ≡ (t + left, false)
  unfolding sleep_loop
  sleep_loop-Quiet zero t q = let e : t + 0 ≡ t = omega arith in rw e refl
  sleep_loop-Quiet (suc left) t q =
      let here = q t (omega arith) (omega arith) in
      let rest =
        sleep_loop-Quiet left (t + 1) (λ t' le lt. q t' (omega (arith, le)) (omega (arith, lt))) in
      let e : t + suc left ≡ t + 1 + left = omega arith in rw (sleep_loop, here, e) rest

  -- A sleep that ends early has read the poll that ends it.
  sleep_loop-stop :
      (left t : ℕ)
      → (sleep_loop ok polls interval left t).1 ≡ true
      → (t < (sleep_loop ok polls interval left t).0)
        × ((sleep_loop ok polls interval left t).0 ≤ t + left)
  unfolding sleep_loop
  sleep_loop-stop zero t h = cc
  sleep_loop-stop (suc left) t h = elim (Bool-cases (stops_watch (polls t))) [
    | inl stop ↦ rw (stop, sleep_loop) (omega arith)
    | inr on ↦
        rw (on, sleep_loop) (omega (arith, sleep_loop-stop left (t + 1) (rw (on, sleep_loop) at h)))
  ]

  watch_loop_endless :
      ((round : ℕ) → ok round ≡ false)
      → ((t : ℕ) → stops_watch (polls t) ≡ false)
      → (fuel round t : ℕ) → watch_loop ok polls interval fuel round 0 t ≡ none
  unfolding watch_loop
  watch_loop_endless fails quiet zero round t = refl
  watch_loop_endless fails quiet (suc fuel) round t =
      let whole = sleep_loop-Quiet (interval * 10) t (λ t' _ _. quiet t') in
      let rest = watch_loop_endless fails quiet fuel (round + 1) (t + interval * 10) in
      rw (watch_loop, whole, fails round) (rw whole rest)

  -- Where no METRICS is answered OK and the client sends nothing that stops it, WATCH never ends:
  -- only refreshes are counted, and there are none. It makes no difference that the client has
  -- closed its end.
  pub watch_mode_endless :
      ((round : ℕ) → ok round ≡ false)
      → ((t : ℕ) → stops_watch (polls t) ≡ false)
      → (fuel : ℕ) → watch_mode ok polls interval fuel ≡ none
  unfolding watch_mode
  watch_mode_endless fails quiet fuel = watch_loop_endless fails quiet fuel 0 0
