-- ===== src/Interface/Tests.antt =====
-- Runs of the announce queue on small inputs: a limit of three announces, and eight microseconds a
-- byte.
use rns.Prelude.{ℕ, ◌+◌, ◌*◌, ◌<◌, ◌≡◌, refl, List, [], ◌∷◌, ◌++◌, false, arith, none, some, true}
use rns.Interface.Announces.{
  AnnounceEntry, AnnounceQueue, drop_expired, is_expired, is_before, select, erase, emit,
  emit_first, process_announce_queue, poll_announces, is_queued, fold_in, defer, send_or_defer,
  send_if, relay, relay_capped, broadcast_announce, Egress, Routing, mode_full, mode_roaming,
  mode_boundary, is_past_roaming,
}
use rns.Interface.Spacing.{Event, polled, announced, happen, happen_all, IsQuiet, happen_all-spaces}

abbrev airtime : ℕ → ℕ
airtime n = n * 8

abbrev announce : ℕ → ℕ → ℕ → AnnounceEntry
announce who time hops = record {
  destination = who ∷ [];
  time = time;
  hops = hops;
  emitted = time;
  raw = who ∷ 0 ∷ [];
}

abbrev idle : AnnounceQueue
idle = record { queue = []; allowed_at = 0; transmitted = []; drops = 0 }

abbrev waiting : AnnounceQueue
waiting = record {
  queue = announce 1 10 2 ∷ announce 2 11 1 ∷ announce 3 12 1 ∷ [];
  allowed_at = 26;
  transmitted = [];
  drops = 0;
}

-- The second is as near as the third, and older.
process-waiting : (process_announce_queue 3 airtime 30 waiting).transmitted ≡ (2 ∷ 0 ∷ []) ∷ []
unfolding process_announce_queue drop_expired is_expired emit_first select is_before emit
process-waiting = refl

-- An interface that relays up to four hops, and an announce from elsewhere; a path response is
-- attached to the interface.
abbrev radio : Egress
radio = record { out = true; mode = mode_full; community_radius = 4; point_to_point = false }

abbrev from_afar : Routing
from_afar = record {
  attached = none;
  is_local = false;
  next_hop = some mode_full;
  came_in_here = false;
}

abbrev path_response : Routing
path_response = record from_afar { attached = some true }

-- The first announce goes out at once, the second is held until the cap allows it, and the path
-- response goes out between them.
abbrev first_sent : Event 3 airtime radio
first_sent = announced from_afar (announce 1 10 2)

abbrev between : List (Event 3 airtime radio)
between = announced from_afar (announce 2 11 1) ∷ announced path_response (announce 3 12 1) ∷ []

abbrev behind_first : AnnounceQueue
behind_first = happen 3 airtime radio first_sent idle

abbrev behind_second : AnnounceQueue
behind_second = happen_all 3 airtime radio between behind_first

first-goes : behind_first.transmitted ≡ idle.transmitted ++ ((1 ∷ 0 ∷ []) ∷ [])
unfolding broadcast_announce relay relay_capped send_or_defer
first-goes = refl

between-IsQuiet : IsQuiet 3 airtime radio between behind_first
unfolding broadcast_announce relay relay_capped send_or_defer defer is_queued fold_in send_if
between-IsQuiet = (λ _. refl, (λ capped. ground (arith, capped), tt))

-- A path response is sent between the two.
second-goes :
    (happen 3 airtime radio (polled 27) behind_second).transmitted
    ≡ behind_second.transmitted ++ ((2 ∷ 0 ∷ []) ∷ [])
unfolding broadcast_announce relay relay_capped send_or_defer defer is_queued fold_in send_if
    poll_announces process_announce_queue drop_expired is_expired emit_first select is_before emit
    erase
second-goes = refl

happen_all-spaces_example : 10 + airtime 2 < 27
happen_all-spaces_example =
    happen_all-spaces 3 airtime radio first_sent (polled 27) between idle (1 ∷ 0 ∷ []) (2 ∷ 0 ∷ [])
      refl refl first-goes between-IsQuiet second-goes

-- A roaming interface hears nothing from the boundary.
roaming-blocks :
    (broadcast_announce 3 airtime
      (record radio { mode = mode_roaming })
      (record from_afar { next_hop = some mode_boundary })
      (announce 1 10 2)
      idle)
    ≡ (false, idle)
unfolding broadcast_announce relay send_if is_past_roaming
roaming-blocks = refl
