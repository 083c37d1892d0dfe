-- ===== src/Resource/Watchdog.antt =====
-- The watchdog of a resource, which Transport::jobs polls.
use rns.Prelude.{◌+◌, ◌-◌, ◌*◌, false, ◌||◌, ◌==◌, if◌then◌else◌, Result, ok}
use rns.Resource.State.{
  Doubles, Host, Resource, ResourceStatus, no_status, queued, advertised, transferring,
  awaiting_proof, assembling, complete, failed, corrupt, Pace, sdu, max_retries,
}
use rns.Resource.Pace.{whole, update_eifr, back_off}
use rns.Resource.Receiver.{request_window}
use rns.Resource.Sender.{advertise}
use rns.Resource.Serving.{cancel}

module _ {R : Type 0} (dbl : Doubles R) (host : Host R) where
  -- The sender's wait for the first request; no timeout is known before the link has a round trip.
  unfoldable pub watch_advertised : R → Resource R → Result (Resource R)
  watch_advertised now d =
      let measured : R = dbl.mul host.link_rtt (whole dbl d.timeout_factor) in
      let wait : R = if dbl.at_most d.timeout (whole dbl 0) then measured else d.timeout in
      let deadline : R = dbl.add (dbl.add d.adv_sent wait) (whole dbl 1) in
      if dbl.at_most wait (whole dbl 0)
      then ok d
      else if dbl.less deadline now
      then (if d.retries_left == 0
          then ok (cancel dbl host d)
          else advertise dbl host now (record d { retries_left = d.retries_left - 1 }))
      else ok d

  -- The receiver's deadline: the time of flight of the parts that are out, at the expected rate.
  unfoldable pub parts_deadline : Resource R → Pace R → R
  parts_deadline d p =
      let extra_wait : R = dbl.mul (whole dbl (max_retries - d.retries_left)) (dbl.ratio 1 2) in
      let sdu_bits : R = dbl.mul (whole dbl sdu) (whole dbl 8) in
      let hmu_wait : R =
        if d.waiting_hmu || (p.outstanding_parts == 0)
        then dbl.div (dbl.mul sdu_bits (dbl.ratio 7 2)) p.eifr
        else whole dbl 0 in
      let flight : R = dbl.div (dbl.mul (whole dbl p.outstanding_parts) sdu_bits) p.eifr in
      let factor : R = whole dbl p.part_timeout_factor in
      let unmeasured : R = dbl.div (dbl.mul (whole dbl 3) (whole dbl sdu)) p.eifr in
      if dbl.is_zero p.req_resp_rtt_rate
      then dbl.add (dbl.add (dbl.add p.last_activity (dbl.mul factor unmeasured)) (dbl.ratio 1 4))
          extra_wait
      else dbl.add
          (dbl.add (dbl.add (dbl.add p.last_activity (dbl.mul factor flight)) hmu_wait)
            (dbl.ratio 1 4))
          extra_wait

  -- A late window: a smaller one is requested, as long as there are retries.
  unfoldable pub retry_window : R → Resource R → Resource R
  retry_window now d =
      if d.retries_left == 0
      then cancel dbl host d
      else request_window dbl now (record d {
        pace = back_off dbl d.pace;
        retries_left = d.retries_left - 1;
        waiting_hmu = false;
      })

  unfoldable pub watch_receiver : R → Resource R → Resource R
  watch_receiver now d =
      let p : Pace R = update_eifr dbl host d.pace in
      let rated : Resource R = record d { pace = p } in
      if dbl.at_most p.eifr (whole dbl 0)
      then rated
      else if dbl.less (parts_deadline d p) now
      then retry_window now rated
      else rated

  abbrev pub known_rtt : Resource R → R
  known_rtt d = if dbl.less (whole dbl 0) d.pace.rtt then d.pace.rtt else host.link_rtt

  -- The sender's wait for requests: 16 retries of the receiver, 10 seconds of grace, and half a
  -- second more for each retry than for the one before.
  unfoldable pub watch_sender : R → Resource R → Resource R
  watch_sender now d =
      let extra_wait : R =
        dbl.mul (dbl.ratio 1 2)
          (dbl.div (whole dbl (max_retries * (max_retries + 1))) (whole dbl 2)) in
      let budget : R =
        dbl.mul (dbl.mul (known_rtt d) (whole dbl d.timeout_factor)) (whole dbl max_retries) in
      let max_wait : R = dbl.add (dbl.add budget (whole dbl 10)) extra_wait in
      if dbl.less (dbl.add d.pace.last_activity max_wait) now then cancel dbl host d else d

  unfoldable pub watch_proof : R → Resource R → Resource R
  watch_proof now d =
      let deadline : R =
        dbl.add (dbl.add d.last_part_sent (dbl.mul (known_rtt d) (whole dbl 3))) (whole dbl 10) in
      if dbl.at_most (known_rtt d) (whole dbl 0)
      then d
      else if dbl.less deadline now
      then (if d.retries_left == 0
          then cancel dbl host d
          else record d { retries_left = d.retries_left - 1; last_part_sent = now })
      else d

  unfoldable pub watch : ResourceStatus → R → Resource R → Result (Resource R)
  watch advertised now d = watch_advertised now d
  watch transferring now d = ok (if d.outbound then watch_sender now d else watch_receiver now d)
  watch awaiting_proof now d = ok (watch_proof now d)
  watch no_status now d = ok d
  watch queued now d = ok d
  watch assembling now d = ok d
  watch complete now d = ok d
  watch failed now d = ok d
  watch corrupt now d = ok d

  unfoldable pub watchdog : R → Resource R → Result (Resource R)
  watchdog now d = watch d.status now d
