-- ===== src/Resource/Pace.antt =====
-- The pace of an inbound resource: the request window, its limits, and the rates measured.
use rns.Prelude.{ℕ, suc, ◌-◌, ◌&&◌, ltb, ◌==◌, if◌then◌else◌, sub_size, add_size}
use rns.Resource.State.{
  Doubles, Host, Pace, first_window, first_window_min, window_max_slow, window_max_very_slow,
  window_max_fast, window_flexibility, fast_rate_threshold, very_slow_rate_threshold, rate_fast,
  rate_very_slow,
}

module _ {R : Type 0} (dbl : Doubles R) where
  abbrev pub whole : ℕ → R
  whole n = dbl.ratio n 1

  -- std::max and std::min.
  abbrev pub max_double : R → R → R
  max_double a b = if dbl.less a b then b else a

  abbrev pub min_double : R → R → R
  min_double a b = if dbl.less b a then b else a

  -- A rate above the fast one counts a round; the last round that is needed lifts the ceiling.
  unfoldable pub note_fast_rate : R → Pace R → Pace R
  note_fast_rate rate p =
      if dbl.less (whole rate_fast) rate && ltb p.fast_rate_rounds fast_rate_threshold
      then record p {
        fast_rate_rounds = suc p.fast_rate_rounds;
        window_max =
            if suc p.fast_rate_rounds == fast_rate_threshold then window_max_fast else p.window_max;
      }
      else p

  unfoldable pub note_slow_rate : R → Pace R → Pace R
  note_slow_rate rate p =
      if (p.fast_rate_rounds == 0)
        && dbl.less rate (whole rate_very_slow)
        && ltb p.very_slow_rate_rounds very_slow_rate_threshold
      then record p {
        very_slow_rate_rounds = suc p.very_slow_rate_rounds;
        window_max =
            if suc p.very_slow_rate_rounds == very_slow_rate_threshold
            then window_max_very_slow
            else p.window_max;
      }
      else p

  -- The round trip moves towards a sample by a twentieth at most.
  unfoldable pub smooth_rtt : R → R → R → R
  smooth_rtt link_rtt rtt sample =
      let step : R = dbl.mul rtt (dbl.ratio 5 100) in
      if dbl.at_most rtt (whole 0)
      then link_rtt
      else if dbl.less sample rtt
      then max_double (dbl.sub rtt step) sample
      else if dbl.less rtt sample
      then min_double (dbl.add rtt step) sample
      else rtt

  -- `receive_part`: the first part after a request.
  unfoldable pub sample_response : Host R → R → ℕ → Pace R → Pace R
  sample_response host now part_size p =
      if dbl.less p.req_resp (whole 0)
      then (let sample : R = dbl.sub now p.req_sent in
          let q : Pace R = record p {
            req_resp = now;
            part_timeout_factor = 2;
            rtt = smooth_rtt host.link_rtt p.rtt sample;
          } in
          let rate : R = dbl.div (whole (add_size part_size q.req_sent_bytes)) sample in
          if dbl.less (whole 0) sample
          then note_fast_rate rate (record q { req_resp_rtt_rate = rate })
          else q)
      else p

  unfoldable pub update_eifr : Host R → Pace R → Pace R
  update_eifr host p =
      let rtt : R = if dbl.less (whole 0) p.rtt then p.rtt else host.link_rtt in
      record p {
        eifr =
            if dbl.is_zero p.req_data_rtt_rate
            then (if dbl.less (whole 0) rtt
                then dbl.div (dbl.mul (whole host.establishment_cost) (whole 8)) rtt
                else whole 0)
            else dbl.mul p.req_data_rtt_rate (whole 8);
      }

  -- `size_t` differences wrap.
  unfoldable pub grow_window : Pace R → Pace R
  grow_window p =
      if ltb p.window p.window_max
      then record p {
        window = suc p.window;
        window_min =
            if ltb (p.flexibility - 1) (sub_size (suc p.window) p.window_min)
            then suc p.window_min
            else p.window_min;
      }
      else p

  -- The rate of the round that a drained window ends.
  unfoldable pub measure_round : Host R → R → Pace R → Pace R
  measure_round host now p =
      let round_rtt : R = dbl.sub now p.req_sent in
      let rate : R =
        dbl.div (whole (sub_size p.rtt_rxd_bytes p.rtt_rxd_bytes_at_part_req)) round_rtt in
      if dbl.less (whole 0) p.req_sent && dbl.less (whole 0) round_rtt
      then note_slow_rate rate (
          note_fast_rate rate (record (update_eifr host (record p { req_data_rtt_rate = rate })) {
            rtt_rxd_bytes_at_part_req = p.rtt_rxd_bytes;
          }))
      else p

  -- The watchdog's step back after a timeout.
  unfoldable pub back_off : Pace R → Pace R
  back_off p =
      let window : ℕ = p.window - 1 in
      let window_max : ℕ = p.window_max - 1 in
      if ltb p.window_min p.window
      then record p {
        window = window;
        window_max =
            if ltb p.window_min p.window_max
            then (if ltb (p.flexibility - 1) (sub_size window_max window)
                then window_max - 1
                else window_max)
            else p.window_max;
      }
      else p

  -- The pace of an accepted resource.
  unfoldable pub new_pace : R → Pace R
  new_pace now = record {
    window = first_window;
    window_max = window_max_slow;
    window_min = first_window_min;
    flexibility = window_flexibility;
    fast_rate_rounds = 0;
    very_slow_rate_rounds = 0;
    outstanding_parts = 0;
    req_sent_bytes = 0;
    rtt_rxd_bytes = 0;
    rtt_rxd_bytes_at_part_req = 0;
    req_resp_rtt_rate = whole 0;
    req_data_rtt_rate = whole 0;
    eifr = whole 0;
    rtt = whole 0;
    last_activity = now;
    req_sent = whole 0;
    req_resp = dbl.minus_one;
    part_timeout_factor = 4;
  }
