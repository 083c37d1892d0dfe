-- ===== src/Interface/Selection.antt =====
-- Which announce leaves the queue.
use rns.Prelude.{ℕ, ◌+◌, ◌≤◌, ◌<◌, ◌⊎◌, ◌≡◌, List, [], ◌∷◌, false}
use rns.Interface.Announces.{AnnounceEntry, queued_announce_life, is_before}

-- None of the announces should go before this one.
abbrev pub IsFirst : AnnounceEntry → List AnnounceEntry → Type 0
IsFirst s [] = Unit
IsFirst s (a ∷ queue) = (is_before a s ≡ false) × IsFirst s queue

-- None of them has outlived its three hours.
abbrev pub AreLive : ℕ → List AnnounceEntry → Type 0
AreLive now [] = Unit
AreLive now (a ∷ queue) = (now ≤ a.time + queued_announce_life) × AreLive now queue

-- What is left of a queue: every announce that has not outlived its three hours, in their order,
-- and none that has.
pub data Sifts (now : ℕ) : List AnnounceEntry → List AnnounceEntry → Type 0 where
  done : Sifts now [] []
  keeps :
      (a : AnnounceEntry) (queue left : List AnnounceEntry)
      → now ≤ a.time + queued_announce_life
      → Sifts now queue left
      → Sifts now (a ∷ queue) (a ∷ left)
  drops :
      (a : AnnounceEntry) (queue left : List AnnounceEntry)
      → a.time + queued_announce_life < now
      → Sifts now queue left
      → Sifts now (a ∷ queue) left

-- Some announce has not outlived its three hours.
abbrev pub HasLive : ℕ → List AnnounceEntry → Type 0
HasLive now [] = ⊥
HasLive now (a ∷ queue) = (now ≤ a.time + queued_announce_life) ⊎ HasLive now queue
