-- ===== src/Message/Client.antt =====
-- services/message/internal/client/room.go: the calls of the room service, which are tried again. The
-- i-th attempt's answer, and what the context says before it and while the client waits after it, are
-- functions of i.
use efir.Prelude.{ℕ, suc, ◌+◌, String, List, [], ◌∷◌, Bool, true, false, Option, none, some}
use efir.Exec.{Result, ok, err}
use efir.Shared.Errors.{GrpcCode, deadline_exceeded}

-- An error, as status.FromError sees it: the context's own, a gRPC status, or any other.
pub data Failure : Type 0 where
  context_ended : Failure
  status : GrpcCode → Failure
  plain : Failure

unfoldable pub is_retried : Failure → Bool
is_retried (status GrpcCode.unavailable) = true
is_retried (status deadline_exceeded) = true
is_retried _ = false

-- What a call comes to, the number of attempts, and the time that was waited for.
pub record Outcome (A : Type 0) : Type 0 where
  pub result : Result Failure A
  pub calls : ℕ
  pub waited : ℕ

-- The caller's context, and the calls.
pub record Attempts (A : Type 0) : Type 0 where
  pub ended : ℕ → Bool
  pub ended_waiting : ℕ → Bool
  pub answer : ℕ → Result Failure A

module _ {A : Type 0} (t : Attempts A) where
  abbrev pub stop : Result Failure A → ℕ → ℕ → Outcome A
  stop r calls waited = record { result = r; calls = calls; waited = waited }

  -- The loop, from the i-th attempt on. The last delay is not waited for.
  unfoldable pub attempt_from : ℕ → ℕ → List ℕ → Outcome A
  attempt_from i waited [] = stop (err plain) i waited
  attempt_from i waited (delay ∷ []) = elim (t.ended i) [
    | true ↦ stop (err context_ended) i waited
    | false ↦ stop (t.answer i) (suc i) waited
  ]
  attempt_from i waited (delay ∷ (next ∷ delays)) = elim (t.ended i) [
    | true ↦ stop (err context_ended) i waited
    | false ↦ elim (t.answer i) [
      | ok a ↦ stop (ok a) (suc i) waited
      | err e ↦ elim (is_retried e) [
        | false ↦ stop (err e) (suc i) waited
        | true ↦ elim (t.ended_waiting i) [
          | true ↦ stop (err context_ended) (suc i) waited
          | false ↦ attempt_from (suc i) (waited + delay) (next ∷ delays)
        ]
      ]
    ]
  ]

  unfoldable pub with_retry : List ℕ → Outcome A
  with_retry [] = stop (t.answer 0) 1 0
  with_retry (delay ∷ delays) = attempt_from 0 0 (delay ∷ delays)

-- GetRoomMembers: the texts of a response, each of which must be a UUID.
unfoldable pub parse_ids : (String → Option ℕ) → List String → Result Failure (List ℕ)
parse_ids parse [] = ok []
parse_ids parse (text ∷ texts) =
    let rest = parse_ids parse texts in
    elim (parse text) [
      | none ↦ err plain
      | some id ↦ elim rest [ ok ids ↦ ok (id ∷ ids) | err e ↦ err e ]
    ]

unfoldable pub parse_members :
    (String → Option ℕ) → Result Failure (List String) → Result Failure (List ℕ)
parse_members parse (err e) = err e
parse_members parse (ok texts) = parse_ids parse texts

unfoldable pub is_member : Attempts Bool → List ℕ → Outcome Bool
is_member rpc retry_delays = with_retry rpc retry_delays

unfoldable pub get_room_members :
    (String → Option ℕ) → Attempts (List String) → List ℕ → Outcome (List ℕ)
get_room_members parse rpc retry_delays =
    with_retry
      (record {
        ended = rpc.ended;
        ended_waiting = rpc.ended_waiting;
        answer = λ i. parse_members parse (rpc.answer i);
      })
      retry_delays
