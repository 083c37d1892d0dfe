-- ===== src/Channel/Window.antt =====
-- `channelWindowOpen`, `channelWindowClose` and `channelTimeoutTime` of Channel.cpp.
use rns.Prelude.{ℕ, ◌+◌, ◌-◌, ◌*◌, ◌%◌, ◌^◌, ltb, leb, ◌==◌, ◌&&◌, if◌then◌else◌, max}
use rns.Channel.State.{
  Channel, window_max_medium, window_min_limit_medium, window_max_fast, window_min_limit_fast,
  fast_rate_threshold, rtt_fast, rtt_medium,
}

module _ {P : Type 0} where
  -- The counters have 16 bits.
  unfoldable pub count_medium : Channel P → Channel P
  count_medium d =
      let rounds = (d.medium_rate_rounds + 1) % 2 ^ 16 in
      let d' = record d { medium_rate_rounds = rounds } in
      if ltb d.window_max window_max_medium && rounds == fast_rate_threshold
      then record d' { window_max = window_max_medium; window_min = window_min_limit_medium }
      else d'

  unfoldable pub count_fast : Channel P → Channel P
  count_fast d =
      let rounds = (d.fast_rate_rounds + 1) % 2 ^ 16 in
      let d' = record d { fast_rate_rounds = rounds } in
      if ltb d.window_max window_max_fast && rounds == fast_rate_threshold
      then record d' { window_max = window_max_fast; window_min = window_min_limit_fast }
      else d'

  unfoldable pub widen : Channel P → Channel P
  widen d = if ltb d.window d.window_max then record d { window = (d.window + 1) % 2 ^ 16 } else d

  unfoldable pub window_open : ℕ → Channel P → Channel P
  window_open rtt d =
      let d' = widen d in
      if rtt == 0
      then d'
      else if ltb rtt_fast rtt
      then (if ltb rtt_medium rtt
          then record d' { fast_rate_rounds = 0; medium_rate_rounds = 0 }
          else count_medium (record d' { fast_rate_rounds = 0 }))
      else count_fast d'

  unfoldable pub window_close : Channel P → Channel P
  window_close d =
      if leb d.window d.window_min
      then d
      else (let d' = record d { window = d.window - 1 } in
          if ltb ((d.window_min + d.window_flexibility) % 2 ^ 16) d.window_max
          then record d' { window_max = d.window_max - 1 }
          else d')

-- Times are counted in 64ths of a microsecond, in which the timeout is a whole number for up to five
-- tries: `1.5 ^ (tries - 1) * max (2.5 * rtt) 25000 us * (ring + 1.5)`, rounding of doubles aside.
unfoldable pub timeout_time : ℕ → ℕ → ℕ → ℕ
timeout_time rtt tries ring =
    3 ^ (tries - 1) * 2 ^ (5 - tries) * max (5 * rtt) 50_000 * (2 * ring + 3)
