-- ===== src/MicroKv/Tests.antt =====
-- Runs of the client, and its theorems at concrete inputs.
use Prim.Native.String.{String}
use asu_ascend.Common.{
  ℕ, suc, ◌≡◌, refl, true, Option, none, some, List, [], ◌∷◌, ◌++◌, length, replicate, arith,
}
use asu_ascend.Common.Int.{pos}
use asu_ascend.MicroKv.Wire.{Bytes, ok, le_bytes}
use asu_ascend.MicroKv.Keys.{int, make_key}
use asu_ascend.MicroKv.Keys.Injective.{make_key_injective, length-make_key}
use asu_ascend.MicroKv.Payload.{parse_batch_get_payload, batch_get_payload, get_item}
use asu_ascend.MicroKv.Payload.RoundTrip.{parse-batch_get_payload}
use asu_ascend.MicroKv.Socket.{Peer, Client, recv_exact, request_raw}
use asu_ascend.MicroKv.Socket.Reading.{stream, NonEmpty, recv_exact_lem}
use asu_ascend.MicroKv.Client.{
  put, get, exists, batch_put, batch_get, batch_exists, clear, size, close,
}
use asu_ascend.MicroKv.Client.Answers.{request_raw_lem}
use asu_ascend.MicroKv.Client.Calls.{batch_get_answers}
use asu_ascend.MicroKv.Client.Closed.{Refused, close_refuses}

-- A digest of 32 bytes that is the same for every text.
abbrev digest : String → Bytes
digest s = replicate 32 7

abbrev some_key : Bytes
some_key =
    (5 ∷ replicate 15 0) ++ ((1 ∷ replicate 3 0) ++ ((44 ∷ 1 ∷ 0 ∷ 0 ∷ []) ++ (2 ∷ replicate 7 0)))

make_key-some_key : make_key digest (int (pos 5)) (pos 1) (pos 300) (pos 2) ≡ ok some_key
unfolding make_key
make_key-some_key = refl

make_key_injective_example :
    (pos 5 ≡ pos 5) × (pos 1 ≡ pos 1) × (pos 300 ≡ pos 300) × (pos 2 ≡ pos 2)
make_key_injective_example =
    make_key_injective digest (pos 5) (pos 1) (pos 300) (pos 2) (pos 5) (pos 1) (pos 300) (pos 2)
      make_key-some_key make_key-some_key

length-make_key_example : length some_key ≡ 32
length-make_key_example =
    length-make_key digest (λ s. refl) (int (pos 5)) (pos 1) (pos 300) (pos 2) make_key-some_key

-- Five bytes in three chunks.
abbrev chunks : List Bytes
chunks = (1 ∷ 2 ∷ []) ∷ (3 ∷ []) ∷ (4 ∷ 5 ∷ []) ∷ []

chunks-NonEmpty : NonEmpty chunks
chunks-NonEmpty = (λ e. cc, (λ e. cc, (λ e. cc, tt)))

recv_exact_lem_example :
    ((recv_exact 4 chunks).0 ≡ ok (1 ∷ 2 ∷ 3 ∷ 4 ∷ []))
    × (stream (recv_exact 4 chunks).1 ≡ 5 ∷ [])
    × NonEmpty (recv_exact 4 chunks).1
recv_exact_lem_example = recv_exact_lem 4 chunks chunks-NonEmpty (omega arith)

-- A value, an absent one and an empty one.
abbrev three : List (Option Bytes)
three = some (9 ∷ 8 ∷ []) ∷ none ∷ some [] ∷ []

parse-batch_get_payload_example : parse_batch_get_payload (batch_get_payload three) ≡ ok three
parse-batch_get_payload_example =
    parse-batch_get_payload three (omega arith) (omega arith, (tt, (omega arith, tt)))

-- A peer that sends the same chunks for every message, and counts the messages.
abbrev peer_of : List Bytes → Peer ℕ
peer_of sent = record { answer = λ message n. (sent, suc n) }

-- The answer with two values, in two chunks, and the answer to `get`, in one.
abbrev two : List (Option Bytes)
two = some (7 ∷ []) ∷ none ∷ []

abbrev batch_chunks : List Bytes
batch_chunks =
    (0 ∷ 15 ∷ 0 ∷ [])
    ∷ (0 ∷ 0 ∷ 2 ∷ 0 ∷ 0 ∷ 0 ∷ 1 ∷ 1 ∷ 0 ∷ 0 ∷ 0 ∷ 7 ∷ 0 ∷ 0 ∷ 0 ∷ 0 ∷ 0 ∷ [])
    ∷ []

abbrev get_chunks : List Bytes
get_chunks = (0 ∷ 2 ∷ 0 ∷ 0 ∷ 0 ∷ 6 ∷ 6 ∷ []) ∷ []

abbrev fresh : Client ℕ
fresh = record { connected = true; incoming = []; peer = 0 }

abbrev key : Bytes
key = replicate 32 1

two-answered : stream batch_chunks ≡ 0 ∷ (le_bytes 4 15 ++ batch_get_payload two)
unfolding batch_get_payload le_bytes get_item
two-answered = refl

batch_get_answers_example :
    batch_get (peer_of batch_chunks) (pos 0) (key ∷ some_key ∷ []) fresh
    ≡ (ok two, record fresh { peer = 1 })
unfolding batch_get_payload le_bytes get_item
batch_get_answers_example =
    batch_get_answers (peer_of batch_chunks) 0 (key ∷ some_key ∷ []) two fresh
      (record { connected = refl; read = refl }) (omega arith) (omega arith) (refl, (refl, tt))
      (omega arith) (omega arith, (tt, tt))
      (record { full = (λ e. cc, (λ e. cc, tt)); bytes = two-answered; fits = omega arith })

request_raw_lem_example :
    request_raw (peer_of get_chunks) 17 3 0 0 [] fresh
    ≡ (ok (0, 6 ∷ 6 ∷ []), record fresh { peer = 1 })
unfolding le_bytes
request_raw_lem_example =
    request_raw_lem (peer_of get_chunks) 17 3 0 0 [] fresh 0 (6 ∷ 6 ∷ [])
      (record { connected = refl; read = refl })
      (omega arith, omega arith, omega arith, omega arith)
      (record { full = (λ e. cc, tt); bytes = refl; fits = omega arith })

abbrev quiet : Peer ℕ
quiet = peer_of []

close_refuses_example :
    Refused (put quiet (pos 0) key []) (close fresh)
    × Refused (get quiet (pos 0) key) (close fresh)
    × Refused (exists quiet (pos 0) key) (close fresh)
    × Refused (batch_put quiet (pos 0) (key ∷ []) ([] ∷ [])) (close fresh)
    × Refused (batch_get quiet (pos 0) (key ∷ [])) (close fresh)
    × Refused (batch_exists quiet (pos 0) (key ∷ [])) (close fresh)
    × Refused (clear quiet (pos 0)) (close fresh)
    × Refused (size quiet (pos 0)) (close fresh)
close_refuses_example = close_refuses quiet fresh (pos 0) key [] (key ∷ []) ([] ∷ [])
