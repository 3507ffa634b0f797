-- ===== src/Hessian/Header/Runs.antt =====
-- Runs of the header of a packet.
use dubbogo.Base.{
  ℕ, ◌+◌, ◌≤◌, ◌<◌, ◌≡◌, refl, ◌⊎◌, true, false, none, some, List, [], ◌∷◌, ◌++◌, arith, length,
  take, drop,
}
use dubbogo.Hessian.Reader.{be}
use dubbogo.Hessian.Header.{
  flag_byte, bytes32, put_uint64, request_header, default_len, pack, Message,
}
use dubbogo.Hessian.Header.Echo.{pack_cases}

abbrev blank : Message
blank = record { id = 0; heartbeat = false; response = false; body_len = 0 }

heartbeat_bytes :
    pack true 0x0102 (b'N' ∷ [])
    ≡ some (0xda ∷ 0xbb ∷ 0xef ∷ 0 ∷ 0 ∷ 0 ∷ 0 ∷ 0 ∷ 0 ∷ 0 ∷ 1 ∷ 2 ∷ 0 ∷ 0 ∷ 0 ∷ 1 ∷ b'N' ∷ [])
unfolding pack request_header flag_byte put_uint64 bytes32
heartbeat_bytes = refl

pack_cases_example :
    ((default_len < 1 + 16) × (pack true 258 (b'N' ∷ []) ≡ none))
    ⊎ ((1 + 16 ≤ default_len)
        × ((head : List ℕ) × (pack true 258 (b'N' ∷ []) ≡ some (head ++ (b'N' ∷ [])))
            × (length head ≡ 16)
            × (be (take 8 (drop 4 head)) ≡ 258)
            × (be (take 4 (drop 12 head)) ≡ 1)))
pack_cases_example = pack_cases true 258 (b'N' ∷ []) (omega arith)
