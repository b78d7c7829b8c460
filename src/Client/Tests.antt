-- ===== src/Client/Tests.antt =====
-- Runs of the client's channel, and each theorem at a concrete input.
use atlas_io.Base.{ℕ, ◌+◌, ◌*◌, ◌≤◌, ◌≡◌, refl, pos, none, some, List, [], ◌∷◌, All, arith}
use atlas_io.Protocol.{IoResponse, data_region_size, ok_response, new_request, set_path}
use atlas_io.Protocol.Utf8.{is_utf8}
use atlas_io.Client.{
  alloc, receive, read_bytes, write_request, Peer, AtlasClient, «open», write, sync, close,
  exchange,
}
use atlas_io.Client.Ffi.{
  decode, decode_unit, decoded, decoded-results, atlas_client_open, atlas_client_write,
  atlas_client_sync, atlas_client_close,
}
use atlas_io.Client.Region.{Inside, allocs, allocs-Inside, write_request-bytes}
use atlas_io.Client.Calls.{receive_lem}

-- Half of the region, twice and then a little more.
abbrev sizes : List ℕ
sizes = 32 * 1024 * 1024 ∷ 32 * 1024 * 1024 ∷ 4096 ∷ []

wraps :
    (allocs 0 sizes).0
    ≡ record { start = 0; len = 33554432 }
      ∷ record { start = 33554432; len = 33554432 }
      ∷ record { start = 0; len = 4096 }
      ∷ []
unfolding allocs alloc
wraps = refl

allocs-Inside_example : All Inside (allocs 0 sizes).0
allocs-Inside_example =
    allocs-Inside 0 sizes (omega arith) (omega arith, (omega arith, (omega arith, tt)))

write_request-bytes_example :
    (read_bytes
        (write_request 1 8192 (λ i. 0) 3 (7 ∷ 8 ∷ 9 ∷ []) 100).0
        (write_request 1 8192 (λ i. 0) 3 (7 ∷ 8 ∷ 9 ∷ []) 100).1.data_offset
        (write_request 1 8192 (λ i. 0) 3 (7 ∷ 8 ∷ 9 ∷ []) 100).1.len
      ≡ 7 ∷ 8 ∷ 9 ∷ [])
    × ((write_request 1 8192 (λ i. 0) 3 (7 ∷ 8 ∷ 9 ∷ []) 100).1.data_offset
          + (write_request 1 8192 (λ i. 0) 3 (7 ∷ 8 ∷ 9 ∷ []) 100).1.len
        ≤ data_region_size)
write_request-bytes_example =
    write_request-bytes 1 8192 (λ i. 0) 3 (7 ∷ 8 ∷ 9 ∷ []) 100 (omega arith) (omega arith)

abbrev response : ℕ → IoResponse
response id = record { id = id; status = pos 0; pad = []; fd = 0; data_offset = 0; data_len = 0 }

receive_lem_example :
    (receive 5 (response 3 ∷ response 4 ∷ response 5 ∷ response 6 ∷ [])
      ≡ some (response 5, response 6 ∷ []))
    × (receive 5 (response 3 ∷ response 4 ∷ []) ≡ none)
receive_lem_example =
    receive_lem 5 (response 3 ∷ response 4 ∷ []) (response 6 ∷ []) (response 5)
      (λ e. absurd (omega arith), (λ e. absurd (omega arith), tt)) refl

-- A service that answers everything with descriptor 3 and the length that was asked.
abbrev echo : Peer
echo = record {
  World = Unit;
  submit = λ w m req. (record (ok_response req.id) { fd = 3; data_len = req.len } ∷ [], m, w);
}

abbrev client : AtlasClient echo
client = record { next_id = 1; offset = 0; memory = λ _. 0; inbox = []; world = tt }

decoded-results_example :
    (decoded echo (decode echo) (atlas_client_open echo client (b'a' ∷ b'b' ∷ 0 ∷ []) 2)
      ≡ «open» echo client (b'a' ∷ b'b' ∷ []) 2)
    × (decoded echo (decode echo) (atlas_client_write echo client 3 (7 ∷ 8 ∷ []) 0)
        ≡ write echo client 3 (7 ∷ 8 ∷ []) 0)
    × (decoded echo (decode_unit echo) (atlas_client_sync echo client 3) ≡ sync echo client 3)
    × (decoded echo (decode_unit echo) (atlas_client_close echo client 3) ≡ close echo client 3)
unfolding «open» write sync close exchange receive write_request new_request set_path is_utf8
    ok_response alloc
decoded-results_example =
    decoded-results echo client (b'a' ∷ b'b' ∷ []) 2 3 0 (7 ∷ 8 ∷ [])
      (λ e. absurd (omega arith), (λ e. absurd (omega arith), tt)) refl (omega arith) (omega arith)
      tt tt
