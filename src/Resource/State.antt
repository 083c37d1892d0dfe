-- ===== src/Resource/State.antt =====
-- The state of a resource (`ResourceData`), its constants, and what it asks of its link and the clock.
use rns.Prelude.{ℕ, List, Bool, Option, Result}

-- Type::Resource::status.
pub data ResourceStatus : Type 0 where
  no_status queued advertised transferring awaiting_proof assembling complete failed corrupt :
      ResourceStatus

abbrev pub first_window : ℕ
first_window = 4

abbrev pub first_window_min : ℕ
first_window_min = 2

abbrev pub window_max_slow : ℕ
window_max_slow = 10

abbrev pub window_max_very_slow : ℕ
window_max_very_slow = 4

abbrev pub window_max_fast : ℕ
window_max_fast = 75

abbrev pub window_flexibility : ℕ
window_flexibility = 4

abbrev pub fast_rate_threshold : ℕ
fast_rate_threshold = 4

abbrev pub very_slow_rate_threshold : ℕ
very_slow_rate_threshold = 2

-- RATE_FAST and RATE_VERY_SLOW, in bytes per second.
abbrev pub rate_fast : ℕ
rate_fast = 6250

abbrev pub rate_very_slow : ℕ
rate_very_slow = 250

abbrev pub maphash_len : ℕ
maphash_len = 4

abbrev pub random_hash_size : ℕ
random_hash_size = 4

abbrev pub sdu : ℕ
sdu = 464

-- (Link::MDU - OVERHEAD) / MAPHASH_LEN, with an MDU of 431 bytes.
abbrev pub hashmap_max_len : ℕ
hashmap_max_len = 74

abbrev pub auto_compress_max_size : ℕ
auto_compress_max_size = 16_777_215

abbrev pub max_retries : ℕ
max_retries = 16

abbrev pub max_adv_retries : ℕ
max_adv_retries = 4

abbrev pub hashmap_is_not_exhausted : ℕ
hashmap_is_not_exhausted = 0x00

abbrev pub hashmap_is_exhausted : ℕ
hashmap_is_exhausted = 0xff

-- The type `double`: its operations, the quotients of two whole numbers, and -1.
pub record Doubles (R : Type 0) : Type 0 where
  pub ratio : ℕ → ℕ → R
  pub minus_one : R
  pub add : R → R → R
  pub sub : R → R → R
  pub mul : R → R → R
  pub div : R → R → R
  pub less : R → R → Bool
  pub at_most : R → R → Bool
  pub is_zero : R → Bool

-- What a resource asks of its link (an encryption that fails throws, a decryption that fails gives
-- the empty string), of SHA-256 and of bzip2.
pub record Host (R : Type 0) : Type 0 where
  pub link_encrypt : List ℕ → Result (List ℕ)
  pub link_decrypt : List ℕ → List ℕ
  pub link_is_active : Bool
  pub link_rtt : R
  pub traffic_timeout_factor : ℕ
  pub establishment_cost : ℕ
  pub full_hash : List ℕ → List ℕ
  pub bz_compress : ℕ → List ℕ → Option (List ℕ)
  pub bz_decompress : ℕ → List ℕ → Option (List ℕ)

-- ResourceFlags.
pub record ResourceFlags : Type 0 where
  pub encrypted : Bool
  pub compressed : Bool
  pub split : Bool
  pub is_request : Bool
  pub is_response : Bool
  pub has_metadata : Bool

-- The parts received so far, empty where missing, and the map hashes known so far. `consec` is the
-- source's height plus one: the number of parts before the first missing one.
pub record Slots : Type 0 where
  pub parts : List (List ℕ)
  pub map_hashes : List (List ℕ)
  pub hash_known : List Bool
  pub received : ℕ
  pub consec : ℕ
  pub hashmap_height : ℕ

-- The request window and the rates that drive it.
pub record Pace (R : Type 0) : Type 0 where
  pub window : ℕ
  pub window_max : ℕ
  pub window_min : ℕ
  pub flexibility : ℕ
  pub fast_rate_rounds : ℕ
  pub very_slow_rate_rounds : ℕ
  pub outstanding_parts : ℕ
  pub req_sent_bytes : ℕ
  pub rtt_rxd_bytes : ℕ
  pub rtt_rxd_bytes_at_part_req : ℕ
  pub req_resp_rtt_rate : R
  pub req_data_rtt_rate : R
  pub eifr : R
  pub rtt : R
  pub last_activity : R
  pub req_sent : R
  pub req_resp : R
  pub part_timeout_factor : ℕ

-- The packets that a resource sends on its link, by their contexts.
pub data LinkPacket : Type 0 where
  resource_adv : List ℕ → LinkPacket
  resource_req : List ℕ → LinkPacket
  resource_hmu : List ℕ → LinkPacket
  resource_part : List ℕ → LinkPacket
  resource_prf : List ℕ → LinkPacket
  resource_icl : List ℕ → LinkPacket

-- `sent` holds the packets sent so far, oldest first; `concluded` and `progressed` count the calls
-- of the callbacks.
pub record Resource (R : Type 0) : Type 0 where
  pub outbound : Bool
  pub status : ResourceStatus
  pub request_id : List ℕ
  pub bytes : List ℕ
  pub size : ℕ
  pub total_size : ℕ
  pub transfer_size : ℕ
  pub data_size : ℕ
  pub total_parts : ℕ
  pub resource_hash : List ℕ
  pub random_hash : List ℕ
  pub original_hash : List ℕ
  pub expected_proof : List ℕ
  pub hashmap : List ℕ
  pub slots : Slots
  pub pace : Pace R
  pub waiting_hmu : Bool
  pub flags : ResourceFlags
  pub timeout : R
  pub timeout_factor : ℕ
  pub adv_sent : R
  pub last_part_sent : R
  pub started_at : R
  pub retries_left : ℕ
  pub part_sent : List Bool
  pub sent_parts : ℕ
  pub req_hashlist : List (List ℕ)
  pub sent : List LinkPacket
  pub concluded : ℕ
  pub progressed : ℕ
