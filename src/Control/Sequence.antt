-- ===== src/Control/Sequence.antt =====
-- include/lcr/sequence.hpp, `sequence`, and the request identifiers of
-- include/wirekrak/core/protocol/control/req_id.hpp that it starts from.
use wirekrak.Common.{ℕ, ◌+◌, ◌%◌, ◌^◌}

pub record Sequence : Type 0 where
  pub next_seq : ℕ

-- `next`: the number, and the sequence after it.
unfoldable pub next : Sequence → Sequence × ℕ
next s = (record { next_seq = (s.next_seq + 1) % 2 ^ 64 }, s.next_seq)

unfoldable pub current : Sequence → ℕ
current s = s.next_seq

unfoldable pub reset : ℕ → Sequence
reset start = record { next_seq = start }

abbrev pub invalid_req_id : ℕ
invalid_req_id = 0

abbrev pub ping_id : ℕ
ping_id = 1

abbrev pub protocol_base : ℕ
protocol_base = 10
