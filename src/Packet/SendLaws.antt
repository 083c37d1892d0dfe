-- ===== src/Packet/SendLaws.antt =====
-- What send and resend promise.
use rns.Prelude.{
  ℕ, ◌≡◌, refl, sym, false, Option, some, inl, inr, arith, if◌then◌else◌, Bool-cases, Option-cases,
  Result, ok, ◌>>=◌, length, bind-ok, true, ◌<◌, ◌⊎◌, leb, ◌==◌,
}
use mathlib.Core.Path.{subst}
use rns.Packet.State.{
  Packet, Net, DestinationType, single, group, plain, link, data_packet, announce, linkrequest,
  proof, Fate, transmitted, deferred, refused, is_taken, context_keepalive, context_lrproof,
  context_linkidentify, context_resource, context_resource_rcl,
}
use rns.Packet.Codec.{pack}
use rns.Packet.Send.{
  wants_receipt, is_data, is_plain, Outcome, count_on_link, type_of, hand_over, send,
}

module _ {D L : Type 0} (net : Net D L) where
  -- What counting on the link promises: for a destination of type LINK, the packet has a link,
  -- which is open, and its data bytes are counted.
  unfoldable pub IsCounted : Packet D L → DestinationType → Option ℕ → Type 0
  IsCounted p type counted =
      (type ≡ link)
      → (l : L) × (p.destination_link ≡ some l)
        × (net.link_closed l ≡ false)
        × (counted ≡ some (length p.bytes))

  count_on_link-IsCounted :
      (type : DestinationType) (p : Packet D L) (counted : Option ℕ)
      → count_on_link net type p ≡ ok counted
      → IsCounted p type counted
  unfolding count_on_link IsCounted
  count_on_link-IsCounted link p counted h = λ _. elim (Option-cases p.destination_link) [
    | inl e ↦ absurd (ground arith)
    | inr (l, e) ↦ (l, e, ground arith, ground arith)
  ]
  count_on_link-IsCounted single p counted h = λ e. absurd (ground arith)
  count_on_link-IsCounted group p counted h = λ e. absurd (ground arith)
  count_on_link-IsCounted plain p counted h = λ e. absurd (ground arith)

  -- The packets that get a receipt once an interface takes them: data whose sender wants one, not
  -- for a destination of type PLAIN, and in no context of a link, but for the identification, or
  -- of a resource.
  abbrev pub IsReceipted : Packet D L → DestinationType → Type 0
  IsReceipted q type =
      (q.create_receipt ≡ true)
      × (q.packet_type ≡ data_packet)
      × (is_plain type ≡ false)
      × ((q.context ≡ context_linkidentify)
          ⊎ (q.context < context_keepalive)
          ⊎ (context_lrproof < q.context))
      × ((q.context < context_resource) ⊎ (context_resource_rcl < q.context))

  -- A packet that was handed over: it is marked as sent exactly if the transport took it, and the
  -- caller gets a receipt exactly if an interface did and receipts are made for it.
  unfoldable pub IsHandedOver : Packet D L → DestinationType → Outcome D L → Type 0
  IsHandedOver q type o =
      (o.packet.sent ≡ is_taken (net.outbound q.raw))
      × (o.receipt ≡ true → (net.outbound q.raw ≡ transmitted) × IsReceipted q type)
      × (net.outbound q.raw ≡ transmitted → IsReceipted q type → o.receipt ≡ true)
      × (o.packet.raw ≡ q.raw)

  wants_receipt-IsReceipted :
      (type : DestinationType) (q : Packet D L)
      → wants_receipt net type q ≡ true
      → IsReceipted q type
  unfolding wants_receipt
  wants_receipt-IsReceipted type q h = (
    ground (arith, h),
    elim (q.packet_type) as (λ t. is_data t ≡ true → t ≡ data_packet) [
      | data_packet ↦ λ _. refl
      | announce ↦ λ e. ground (arith, e)
      | linkrequest ↦ λ e. ground (arith, e)
      | proof ↦ λ e. ground (arith, e)
    ]
        (ground (arith, h)),
    ground (arith, h),
    elim (Bool-cases (q.context == context_linkidentify)) [
      | inl e ↦ inl (ground (arith, e))
      | inr e ↦ inr (elim (Bool-cases (leb context_keepalive q.context)) [
        | inl f ↦ inr (ground (arith, h, e, f))
        | inr f ↦ inl (ground (arith, f))
      ])
    ],
    elim (Bool-cases (leb context_resource q.context)) [
      | inl e ↦ inr (ground (arith, h, e))
      | inr e ↦ inl (ground (arith, e))
    ],
  )

  IsReceipted-wants_receipt :
      (type : DestinationType) (q : Packet D L)
      → IsReceipted q type
      → wants_receipt net type q ≡ true
  unfolding wants_receipt
  IsReceipted-wants_receipt type q (wanted, some_data, addressed, inl a, inl b) =
      rw (wanted, some_data, addressed) (ground arith)
  IsReceipted-wants_receipt type q (wanted, some_data, addressed, inl a, inr b) =
      rw (wanted, some_data, addressed) (ground arith)
  IsReceipted-wants_receipt type q (wanted, some_data, addressed, inr (inl a), inl b) =
      rw (wanted, some_data, addressed) (ground arith)
  IsReceipted-wants_receipt type q (wanted, some_data, addressed, inr (inl a), inr b) =
      rw (wanted, some_data, addressed) (ground arith)
  IsReceipted-wants_receipt type q (wanted, some_data, addressed, inr (inr a), b) =
      rw (wanted, some_data, addressed) (ground arith)

  hand_over-IsHandedOver :
      (counted : Option ℕ) (type : DestinationType) (q : Packet D L)
      → IsHandedOver q type (hand_over net counted type q)
        × ((hand_over net counted type q).counted ≡ counted)
  unfolding hand_over IsHandedOver
  hand_over-IsHandedOver counted type q = by_fate (net.outbound q.raw) refl
    where
      by_fate :
          (f : Fate)
          → net.outbound q.raw ≡ f
          → IsHandedOver q type (hand_over net counted type q)
            × ((hand_over net counted type q).counted ≡ counted)
      by_fate transmitted e = rw e (
        (
          refl,
          λ h. (refl, wants_receipt-IsReceipted type q h),
          λ _. IsReceipted-wants_receipt type q,
          refl,
        ),
        refl,
      )
      by_fate deferred e =
          rw e
            ((refl, λ h. absurd (ground (arith, h)), λ h. absurd (ground (arith, h)), refl), refl)
      by_fate refused e =
          rw e
            ((refl, λ h. absurd (ground (arith, h)), λ h. absurd (ground (arith, h)), refl), refl)

  -- The same outcome, and the same type.
  IsHandedOver-at :
      (q : Packet D L) (type type' : DestinationType) (given o : Outcome D L)
      → o ≡ given
      → type ≡ type'
      → IsHandedOver q type given
      → IsHandedOver q type' o
  IsHandedOver-at q type type' given o over same handed =
      subst (λ (t : DestinationType). IsHandedOver q t o) same
        (subst (IsHandedOver q type) (sym over) handed)

  type_of-some :
      (p : Packet D L) (type : DestinationType)
      → type_of net p ≡ ok type
      → (d : D) × (p.destination ≡ some d) × (type ≡ net.dest_type d)
  unfolding type_of
  type_of-some p type h = elim (Option-cases p.destination) [
    | inl e ↦ absurd (ground arith)
    | inr (d, e) ↦ (d, e, ground arith)
  ]

  -- A send that returns was of a packet not sent before, with a destination; the packet is the
  -- one given if it was packed and the result of pack otherwise; over a destination of type LINK
  -- its link is open and its data bytes are counted; it is marked as sent exactly if the
  -- transport takes its bytes, which stay as packed, and the caller gets a receipt exactly if an
  -- interface takes them and the packet is one for which receipts are made: data whose sender
  -- wants one, not for a destination of type PLAIN, and in no context of a link, but for the
  -- identification, or of a resource.
  pub send-IsHandedOver :
      (p : Packet D L) (o : Outcome D L)
      → send net p ≡ ok o
      → (p.sent ≡ false)
        × ((d : D) × (q : Packet D L) × (p.destination ≡ some d)
            × ((if p.packed then ok p else pack net p) ≡ ok q)
            × IsCounted p (net.dest_type d) o.counted
            × IsHandedOver q (net.dest_type d) o)
  unfolding send
  send-IsHandedOver p o h = elim (Bool-cases p.sent) [
    | inl e ↦ absurd (ground arith)
    | inr e ↦
        let packed : Result (Packet D L) = if p.packed then ok p else pack net p in
        let give : DestinationType → Option ℕ → Packet D L → Result (Outcome D L) =
          λ type counted q. ok (hand_over net counted type q) in
        let after_type : DestinationType → Result (Outcome D L) =
          λ type. count_on_link net type p >>= λ counted. packed >>= give type counted in
        let bound : (type_of net p >>= after_type) ≡ ok o = ground arith in
        let (type, typed, rest) = bind-ok (type_of net p) after_type o bound in
        let (d, there, same) = type_of-some p type typed in
        let (counted, count, rest') =
          bind-ok (count_on_link net type p) (λ counted. packed >>= give type counted) o rest in
        let (q, pack_ok, last) = bind-ok packed (give type counted) o rest' in
        let over : o ≡ hand_over net counted type q = ground arith in
        let (handed, kept) = hand_over-IsHandedOver counted type q in
        (
          e,
          (
            d,
            q,
            there,
            pack_ok,
            rw (over, kept, ← same) (count_on_link-IsCounted type p counted count),
            IsHandedOver-at q type (net.dest_type d) (hand_over net counted type q) o over same
                handed,
          ),
        )
  ]
