-- ===== src/Resource/Retry.antt =====
-- A receiver that hears nothing more: the watchdog's retries and their end.
use rns.Prelude.{
  ℕ, suc, ◌-◌, ◌≡◌, ◌∙◌, refl, sym, ap, List, [], ◌∷◌, true, false, ◌==◌, arith, length, Result, ok,
  ◌>>=◌,
}
use rns.Resource.State.{Doubles, Host, Resource, ResourceStatus, transferring, failed}
use rns.Resource.Pace.{whole, update_eifr, back_off}
use rns.Resource.Receiver.{request_window, send_request}
use rns.Resource.Serving.{cancel}
use rns.Resource.Watchdog.{parts_deadline, retry_window, watch_receiver, watch, watchdog}
use rns.Resource.Delivery.Core.{core_of-request_window, verdict_of-request_window, Core}

module _ {R : Type 0} (dbl : Doubles R) (host : Host R) where
  abbrev pub polls : List R → Resource R → Result (Resource R)
  polls [] d = ok d
  polls (now ∷ times) d = do d' ← watchdog dbl host now d; polls times d'

  -- The receiver with the rate that a poll measures.
  abbrev pub rated : Resource R → Resource R
  rated d = record d { pace = update_eifr dbl host d.pace }

  -- Polls behind the deadline, one after the other, of a receiver that knows a rate.
  abbrev pub AreLate : List R → Resource R → Type 0
  AreLate [] d = Unit
  AreLate (now ∷ times) d =
      (dbl.at_most (rated d).pace.eifr (whole dbl 0) ≡ false)
      × (dbl.less (parts_deadline dbl host d (rated d).pace) now ≡ true)
      × AreLate times (retry_window dbl host now (rated d))

  retries-request_window :
      (now : R) (d : Resource R) → (request_window dbl now d).retries_left ≡ d.retries_left
  unfolding request_window send_request
  retries-request_window now d = ground arith

  watchdog-late :
      (now : R) (d : Resource R)
      → d.outbound ≡ false
      → d.status ≡ transferring
      → dbl.at_most (rated d).pace.eifr (whole dbl 0) ≡ false
      → dbl.less (parts_deadline dbl host d (rated d).pace) now ≡ true
      → watchdog dbl host now d ≡ ok (retry_window dbl host now (rated d))
  unfolding watchdog watch watch_receiver
  watchdog-late now d inbound under known late =
      let head : watchdog dbl host now d ≡ watch dbl host transferring now d =
        ap (λ (s : ResourceStatus). watch dbl host s now d) under in
      head ∙ ground (arith, inbound, known, late)

  -- A retry of a receiver that has some left.
  retry_window-more :
      (now : R) (d : Resource R) (n : ℕ)
      → d.outbound ≡ false
      → d.status ≡ transferring
      → d.retries_left ≡ suc n
      → ((retry_window dbl host now d).outbound ≡ false)
        × ((retry_window dbl host now d).status ≡ transferring)
        × ((retry_window dbl host now d).retries_left ≡ n)
        × ((retry_window dbl host now d).concluded ≡ d.concluded)
  unfolding retry_window
  retry_window-more now d n inbound under left =
      let smaller : Resource R = record d {
        pace = back_off dbl d.pace;
        retries_left = d.retries_left - 1;
        waiting_hmu = false;
      } in
      let more : (d.retries_left == 0) ≡ false = ground (arith, left) in
      let verdict = verdict_of-request_window dbl host now smaller in
      rw more (
        ap (λ (c : Core). c.outbound) (core_of-request_window dbl host now smaller) ∙ inbound,
        verdict.0 ∙ under,
        retries-request_window now smaller ∙ omega (arith, left),
        verdict.1,
      )

  retry_window-last :
      (now : R) (d : Resource R)
      → d.status ≡ transferring
      → d.retries_left ≡ 0
      → ((retry_window dbl host now d).status ≡ failed)
        × ((retry_window dbl host now d).concluded ≡ suc d.concluded)
  unfolding retry_window cancel
  retry_window-last now d under left = ground (arith, under, left)

  -- A receiver in transfer that hears nothing more and knows a rate is FAILED, with one call of
  -- its concluded callback, by one poll of the watchdog more than it has retries, if each poll
  -- comes behind its deadline.
  pub polls-failed :
      (times : List R) (d : Resource R)
      → d.outbound ≡ false
      → d.status ≡ transferring
      → length times ≡ suc d.retries_left
      → AreLate times d
      → (e : Resource R) × (polls times d ≡ ok e)
        × (e.status ≡ failed)
        × (e.concluded ≡ suc d.concluded)
  polls-failed [] d inbound under n late = ground arith
  polls-failed (now ∷ []) d inbound under n (known, late, rest) =
      let none_left : d.retries_left ≡ 0 = omega arith in
      let ended = retry_window-last now (rated d) under none_left in
      (
        retry_window dbl host now (rated d),
        rw (watchdog-late now d inbound under known late) refl,
        ended.0,
        ended.1,
      )
  polls-failed (now ∷ time ∷ times) d inbound under n (known, late, rest) =
      let some_left : d.retries_left ≡ suc (length times) = omega arith in
      let next : Resource R = retry_window dbl host now (rated d) in
      let (inbound', under', left', told') =
        retry_window-more now (rated d) (length times) inbound under some_left in
      let (e, polled, over, told) =
        polls-failed (time ∷ times) next inbound' under' (ap suc (sym left')) rest in
      (e, rw (watchdog-late now d inbound under known late) polled, over, told ∙ ap suc told')
