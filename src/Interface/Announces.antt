-- ===== src/Interface/Announces.antt =====
-- The announce queue of an interface: process_announce_queue of Interface.cpp, and the part of
-- Transport::outbound that decides on an announce. Times are in microseconds.
use rns.Prelude.{
  ℕ, zero, suc, ◌+◌, List, [], ◌∷◌, ◌++◌, Bool, true, false, not, ◌&&◌, ◌||◌, ltb, ◌==◌,
  if◌then◌else◌, length, Option, none, some,
}
use rns.Bytes.{same_bytes}

pub record AnnounceEntry : Type 0 where
  pub destination : List ℕ
  pub time : ℕ
  pub hops : ℕ
  pub emitted : ℕ
  pub raw : List ℕ

-- `transmitted` holds the announces that the interface has sent, oldest first, and `drops`
-- counts what found the queue full.
pub record AnnounceQueue : Type 0 where
  pub queue : List AnnounceEntry
  pub allowed_at : ℕ
  pub transmitted : List (List ℕ)
  pub drops : ℕ

-- Type::Interface::modes.
pub data InterfaceMode : Type 0 where
  mode_none mode_full mode_point_to_point mode_access_point mode_roaming mode_boundary
        mode_gateway :
      InterfaceMode

-- The settings of an interface that the relaying of announces reads.
pub record Egress : Type 0 where
  pub out : Bool
  pub mode : InterfaceMode
  pub community_radius : ℕ
  pub point_to_point : Bool

-- What the transport knows of an announce: the interface that it is attached to, if there is one,
-- and whether it is the one at hand; whether its destination is of this node; the mode of the
-- interface to the next hop, if there is one; and whether it came in over the interface at hand.
pub record Routing : Type 0 where
  pub attached : Option Bool
  pub is_local : Bool
  pub next_hop : Option InterfaceMode
  pub came_in_here : Bool

-- The next hops from which a roaming interface, and one at a boundary, hears announces.
unfoldable pub is_past_roaming : Option InterfaceMode → Bool
is_past_roaming none = false
is_past_roaming (some mode_none) = false
is_past_roaming (some mode_roaming) = false
is_past_roaming (some mode_boundary) = false
is_past_roaming (some mode_full) = true
is_past_roaming (some mode_point_to_point) = true
is_past_roaming (some mode_access_point) = true
is_past_roaming (some mode_gateway) = true

unfoldable pub is_past_boundary : Option InterfaceMode → Bool
is_past_boundary none = false
is_past_boundary (some mode_none) = false
is_past_boundary (some mode_roaming) = false
is_past_boundary (some mode_boundary) = true
is_past_boundary (some mode_full) = true
is_past_boundary (some mode_point_to_point) = true
is_past_boundary (some mode_access_point) = true
is_past_boundary (some mode_gateway) = true

-- QUEUED_ANNOUNCE_LIFE: three hours.
abbrev pub queued_announce_life : ℕ
queued_announce_life = 10_800_000_000

unfoldable pub is_expired : ℕ → AnnounceEntry → Bool
is_expired now a = ltb (a.time + queued_announce_life) now

unfoldable pub drop_expired : ℕ → List AnnounceEntry → List AnnounceEntry
drop_expired now [] = []
drop_expired now (a ∷ queue) =
    let rest : List AnnounceEntry = drop_expired now queue in
    if is_expired now a then rest else a ∷ rest

-- Fewer hops, and the older of two at the same distance.
unfoldable pub is_before : AnnounceEntry → AnnounceEntry → Bool
is_before a b = ltb a.hops b.hops || ((a.hops == b.hops) && ltb a.time b.time)

-- The loop that selects: `selected` stands at `i`, and `k` is the position of what is left.
unfoldable pub select : AnnounceEntry → ℕ → ℕ → List AnnounceEntry → AnnounceEntry × ℕ
select selected i k [] = (selected, i)
select selected i k (a ∷ queue) =
    let this = select a k (suc k) queue in
    let that = select selected i (suc k) queue in if is_before a selected then this else that

unfoldable pub erase : List AnnounceEntry → ℕ → List AnnounceEntry
erase [] i = []
erase (a ∷ queue) zero = queue
erase (a ∷ queue) (suc i) = a ∷ erase queue i

-- `max_queued` is MAX_QUEUED_ANNOUNCES, a setting of the build, and `wait_time` the airtime that the
-- cap demands behind a frame of a size (0 without a bit rate or a cap).
module _ (max_queued : ℕ) (wait_time : ℕ → ℕ) where
  -- The selected announce goes out.
  unfoldable pub emit : ℕ → AnnounceEntry → ℕ → AnnounceQueue → AnnounceQueue
  emit now selected i d = record d {
    queue = erase d.queue i;
    allowed_at = now + wait_time (length selected.raw);
    transmitted = d.transmitted ++ (selected.raw ∷ []);
  }

  unfoldable pub emit_first : ℕ → List AnnounceEntry → AnnounceQueue → AnnounceQueue
  emit_first now [] d = record d { queue = [] }
  emit_first now (a ∷ queue) d =
      let (selected, i) = select a 0 0 (a ∷ queue) in
      emit now selected i (record d { queue = a ∷ queue })

  unfoldable pub process_announce_queue : ℕ → AnnounceQueue → AnnounceQueue
  process_announce_queue now d = emit_first now (drop_expired now d.queue) d

  -- The poll of Transport::jobs on a transport node.
  unfoldable pub poll_announces : ℕ → AnnounceQueue → AnnounceQueue
  poll_announces now d =
      if not (length d.queue == 0) && ltb d.allowed_at now then process_announce_queue now d else d

  -- A queued announce of the same destination takes a newer one's place.
  unfoldable pub is_queued : AnnounceEntry → List AnnounceEntry → Bool
  is_queued e [] = false
  is_queued e (a ∷ queue) = same_bytes a.destination e.destination || is_queued e queue

  unfoldable pub fold_in : AnnounceEntry → List AnnounceEntry → List AnnounceEntry
  fold_in e [] = []
  fold_in e (a ∷ queue) =
      let rest : List AnnounceEntry = fold_in e queue in
      let newer : AnnounceEntry = record a {
        time = e.time;
        hops = e.hops;
        emitted = e.emitted;
        raw = e.raw;
      } in
      if same_bytes a.destination e.destination
      then (if ltb a.emitted e.emitted then newer ∷ queue else a ∷ queue)
      else a ∷ rest

  unfoldable pub defer : AnnounceEntry → AnnounceQueue → Bool × AnnounceQueue
  defer e d =
      if ltb (length d.queue) max_queued
      then (
        true,
        record d { queue = if is_queued e d.queue then fold_in e d.queue else d.queue ++ (e ∷ []) },
      )
      else (false, record d { drops = suc d.drops })

  -- A forwarded announce under the cap, at its `time`: whether it is deferred, and the state behind
  -- it. `p2p_echo` says that it came in over this very point-to-point interface.
  unfoldable pub send_or_defer : Bool → AnnounceEntry → AnnounceQueue → Bool × AnnounceQueue
  send_or_defer p2p_echo e d =
      if p2p_echo
      then (false, d)
      else if (length d.queue == 0) && ltb d.allowed_at e.time
      then (
        false,
        record d {
          allowed_at = e.time + wait_time (length e.raw);
          transmitted = d.transmitted ++ (e.raw ∷ []);
        },
      )
      else defer e d

  -- An announce that is allowed or blocked without regard to the cap.
  unfoldable pub send_if : Bool → AnnounceEntry → AnnounceQueue → Bool × AnnounceQueue
  send_if allowed e d =
      if allowed
      then (false, record d { transmitted = d.transmitted ++ (e.raw ∷ []) })
      else (false, d)

  -- Announces of this node are sent without regard to the cap.
  unfoldable pub relay_capped :
      Bool → Routing → AnnounceEntry → AnnounceQueue → Bool × AnnounceQueue
  relay_capped point_to_point r e d =
      if ltb 0 e.hops
      then send_or_defer (point_to_point && r.came_in_here) e d
      else send_if true e d

  -- What the mode of the interface makes of an announce inside its radius.
  unfoldable pub relay :
      InterfaceMode → Bool → Routing → AnnounceEntry → AnnounceQueue → Bool × AnnounceQueue
  relay mode_roaming point_to_point r e d = send_if (r.is_local || is_past_roaming r.next_hop) e d
  relay mode_boundary point_to_point r e d = send_if (r.is_local || is_past_boundary r.next_hop) e d
  relay mode_none point_to_point r e d = relay_capped point_to_point r e d
  relay mode_full point_to_point r e d = relay_capped point_to_point r e d
  relay mode_point_to_point point_to_point r e d = relay_capped point_to_point r e d
  relay mode_access_point point_to_point r e d = relay_capped point_to_point r e d
  relay mode_gateway point_to_point r e d = relay_capped point_to_point r e d

  -- What Transport::outbound does on one interface with an announce, whose destination is no link.
  unfoldable pub broadcast_announce :
      Egress → Routing → AnnounceEntry → AnnounceQueue → Bool × AnnounceQueue
  broadcast_announce i r e d = if not i.out then (false, d) else elim r.attached [
    | some this_one ↦ send_if this_one e d
    | none ↦
        if not r.is_local && ltb i.community_radius e.hops
        then (false, d)
        else relay i.mode i.point_to_point r e d
  ]
